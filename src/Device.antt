-- ===== src/Device.antt =====
-- wireguard.go and tunnel.go: the keys, the text of a configuration, the test for STUN, and what `runTunnel`
-- sets up before its workers run. base64, X25519, the source of random bytes, the readers of addresses and
-- the routes are arguments. A configured MTU that is negative is refused by the flags.
pub mod Keys
pub mod Setup
use teleport_client.Base.{
  ℕ, ◌+◌, ◌*◌, ◌/◌, ◌%◌, Bool, true, false, not, ◌&&◌, ◌||◌, Option, none, some, List, [], ◌∷◌,
  ◌++◌, Text, codes, ℤ, pos, leb, ltb, ltb_ℤ, ◌==◌, if◌then◌else◌, is_empty, is_nonempty, length,
  has_byte, itoa, hex_digit, pos_part, neg_part,
}
use teleport_client.Net.{Ip}
use teleport_client.Api.{ApiResponse, ServerInfo}
use teleport_client.PathMtu.{RouteWorld, discover_path_mtu}
use teleport_client.PeerMtu.{PeerMtuProber, base_tunnel_mtu, new_peer_mtu_prober}

-- `hex.EncodeToString`.
unfoldable pub hex_encode : Text → Text
hex_encode [] = []
hex_encode (c ∷ s) = hex_digit (c / 16) ∷ hex_digit (c % 16) ∷ hex_encode s

abbrev pub checked_key : Option Text → Option Text
checked_key none = none
checked_key (some decoded) = if not (length decoded == 32) then none else some (hex_encode decoded)

unfoldable pub b64_key_to_hex : (Text → Option Text) → Text → Option Text
unfolding hex_encode
b64_key_to_hex decode key = checked_key (decode key)

-- `priv[31] &= 127` and `priv[31] |= 64`.
abbrev pub clamp_last : ℕ → List ℕ → List ℕ
clamp_last i [] = []
clamp_last i (c ∷ s) = (if i == 31 then c % 64 + 64 else c) ∷ clamp_last (i + 1) s

-- `priv[0] &= 248`, and then the last byte.
unfoldable pub clamp : List ℕ → List ℕ
clamp [] = []
clamp (c ∷ s) = (c / 8 * 8) ∷ clamp_last 1 s

abbrev pub with_public : (Text → Text) → Text → Option Text → Option (Text × Text)
with_public encode priv none = none
with_public encode priv (some key) = some (encode priv, encode key)

-- The private and the public key, from 32 random bytes.
unfoldable pub wg_keypair :
    (Text → Text) → (Text → Option Text) → Option Text → Option (Text × Text)
unfolding clamp
wg_keypair encode x25519 none = none
wg_keypair encode x25519 (some random) = with_public encode (clamp random) (x25519 (clamp random))

-- `binary.BigEndian.Uint32` of the bytes 4 to 7 is the magic cookie of STUN.
abbrev pub has_cookie : Text → Bool
has_cookie (a ∷ b ∷ c ∷ d ∷ p ∷ q ∷ r ∷ s ∷ rest) =
    (p * 256 + q) * 65536 + (r * 256 + s) == 554869826
has_cookie _ = false

abbrev pub starts_as_stun : Text → Bool
starts_as_stun [] = false
starts_as_stun (c ∷ s) = c == 0 || c == 1

unfoldable pub is_stun : Text → Bool
is_stun packet = leb 20 (length packet) && (starts_as_stun packet && has_cookie packet)

abbrev pub first_or : Text → List Text → Text
first_or address [] = address
first_or address (d ∷ dns) = d

-- `fmt.Sprintf("%d", n)`.
abbrev pub decimal : ℤ → Text
decimal n = if ltb_ℤ n (pos 0) then b'-' ∷ itoa (neg_part n) else itoa (pos_part n)

abbrev pub config_mask : ServerInfo → ℤ
config_mask info =
    if ltb_ℤ info.tunnel_mask (pos 0) || ltb_ℤ (pos 0) info.tunnel_mask
    then info.tunnel_mask
    else pos 120

abbrev pub config_address : ServerInfo → Text → Text
config_address info client_ip =
    let address = info.tunnel_addr ++ b'/' ∷ decimal (config_mask info) in
    if is_nonempty client_ip
    then client_ip
      ++ b'/'
        ∷ ((if has_byte b':' client_ip then codes "128" else codes "32") ++ (codes ", " ++ address))
    else address

-- A line with its end.
abbrev pub line : Text → Text → Text
line text rest = text ++ 10 ∷ rest

-- The MTU as discovered or configured, 0 for a line without it.
unfoldable pub build_config : Text → ℕ → Text → ServerInfo → List Text → Text → ℕ → Text
unfolding itoa
build_config priv port endpoint info dns client_ip mtu =
    let peer = line (codes "") (
      line (codes "[Peer]") (
        line (codes "PublicKey = " ++ info.wg_pub_key) (
          line (codes "Endpoint = " ++ endpoint) (
            line (codes "AllowedIPs = 0.0.0.0/0, ::/0")
              (line (codes "PersistentKeepalive = 25") (codes "")))))) in
    line (codes "[Interface]") (
      line (codes "PrivateKey = " ++ priv) (
        line (codes "ListenPort = " ++ itoa port) (
          line (codes "Address = " ++ config_address info client_ip) (
            line (codes "DNS = " ++ first_or (codes "192.168.88.1") dns)
              (if ltb 0 mtu then line (codes "MTU = " ++ itoa mtu) peer else peer)))))

-- The text that `dev.IpcSet` is given.
unfoldable pub ipc_text : Text → ℕ → Text → Text → Text
unfolding itoa
ipc_text priv_hex port peer_pub_hex endpoint = line (codes "private_key=" ++ priv_hex) (
    line (codes "listen_port=" ++ itoa port) (
      line (codes "public_key=" ++ peer_pub_hex) (
        line (codes "endpoint=" ++ endpoint) (
          line (codes "persistent_keepalive_interval=25")
            (line (codes "allowed_ip=0.0.0.0/0") (line (codes "allowed_ip=::/0") (codes "")))))))

-- A UDP address: its IP, its port, and its text.
pub record UdpAddr : Type 0 where
  pub ip : Ip
  pub port : ℕ
  pub text : Text

pub record TunnelWorld : Type 0 where
  pub decode : Text → Option Text
  pub resolve : Text → Option UdpAddr
  pub parse_addr : Text → Option Ip
  pub routes : RouteWorld

pub record TunnelParams : Type 0 where
  pub priv : Text
  pub port : ℕ
  pub endpoint : Text
  pub conn_resp : ApiResponse
  pub mtu : ℕ

-- What the network stack, the device and the prober are created with.
pub record TunnelSetup : Type 0 where
  pub device_addrs : List Ip
  pub dns_addrs : List Ip
  pub stack_mtu : ℕ
  pub ipc : Text
  pub prober : PeerMtuProber

module _ (w : TunnelWorld) where
  -- `append` of an address that can be parsed.
  abbrev pub with_addr : Option Ip → List Ip → List Ip
  with_addr none addrs = addrs
  with_addr (some a) addrs = a ∷ addrs

  unfoldable pub parsed_addrs : List Text → List Ip
  parsed_addrs [] = []
  parsed_addrs (s ∷ texts) =
      let rest = parsed_addrs texts in if is_empty s then rest else with_addr (w.parse_addr s) rest

  -- An empty entry of the DNS addresses is one that cannot be parsed.
  abbrev pub set_up_at : TunnelParams → Text → Text → UdpAddr → TunnelSetup
  set_up_at p priv_hex peer_pub_hex addr =
      let automatic = p.mtu == 0 in
      let initial_mtu = if automatic then base_tunnel_mtu else p.mtu in
      let max_target_mtu =
        if automatic then discover_path_mtu w.routes (some addr.ip) (pos addr.port) else p.mtu in
      record {
        device_addrs =
            parsed_addrs (p.conn_resp.server_info.tunnel_addr ∷ p.conn_resp.client_ip ∷ []);
        dns_addrs = parsed_addrs p.conn_resp.dns_addrs;
        stack_mtu = initial_mtu;
        ipc = ipc_text priv_hex p.port peer_pub_hex addr.text;
        prober = new_peer_mtu_prober initial_mtu max_target_mtu p.mtu;
      }

  abbrev pub set_up_with :
      TunnelParams → Option Text → Option Text → Option UdpAddr → Option TunnelSetup
  set_up_with p (some priv_hex) (some peer_pub_hex) (some addr) =
      some (set_up_at p priv_hex peer_pub_hex addr)
  set_up_with p _ _ _ = none

  -- The start of `runTunnel`, up to the workers; `none` for an error of a key or of the endpoint.
  unfoldable pub set_up_tunnel : TunnelParams → Option TunnelSetup
  unfolding b64_key_to_hex parsed_addrs ipc_text discover_path_mtu new_peer_mtu_prober
  set_up_tunnel p =
      set_up_with p (b64_key_to_hex w.decode p.priv)
        (b64_key_to_hex w.decode p.conn_resp.server_info.wg_pub_key) (w.resolve p.endpoint)
