-- ===== src/Tests/Devices.antt =====
-- wireguard.go and tunnel.go, the set-up of a tunnel with a decoder that knows one key.
use teleport_client.Base.{
  ◌≤◌, ◌≡◌, refl, true, some, [], ◌∷◌, ◌++◌, Text, codes, replicate, has_byte, split_on, itoa,
  is_empty,
}
use teleport_client.Api.{empty_response}
use teleport_client.PeerMtu.Invariant.{IsValid}
use teleport_client.Device.{
  TunnelWorld, TunnelParams, TunnelSetup, UdpAddr, set_up_at, set_up_tunnel, b64_key_to_hex,
  hex_encode, build_config, is_stun,
}
use teleport_client.Device.Setup.{set_up_tunnel_lem}
use teleport_client.Tests.Paths.{peer, host}

abbrev key : Text
key = replicate 32 171

abbrev digits : Text
digits = hex_encode key

abbrev console : UdpAddr
console = record { ip = peer; port = 51820; text = codes "203.0.113.7:51820" }

abbrev world : TunnelWorld
world = record {
  decode = λ text. some key;
  resolve = λ text. some console;
  parse_addr = λ text. some peer;
  routes = host;
}

abbrev params : TunnelParams
params = record {
  priv = codes "priv";
  port = 51821;
  endpoint = codes "203.0.113.7:51820";
  conn_resp = empty_response 200;
  mtu = 0;
}

abbrev made : TunnelSetup
made = set_up_at world params digits digits console

set_up_tunnel_lem_example :
    IsValid made.prober
    × (made.prober.confirmed_mtu ≡ made.stack_mtu)
    × (1280 ≤ made.stack_mtu)
    × (made.prober.max_target_mtu ≤ 1500)
    × (split_on 10 made.ipc
        ≡ (codes "private_key=" ++ digits)
          ∷ (codes "listen_port=" ++ itoa 51821)
          ∷ (codes "public_key=" ++ digits)
          ∷ (codes "endpoint=" ++ codes "203.0.113.7:51820")
          ∷ codes "persistent_keepalive_interval=25"
          ∷ codes "allowed_ip=0.0.0.0/0"
          ∷ codes "allowed_ip=::/0"
          ∷ []
          ∷ [])
set_up_tunnel_lem_example =
    set_up_tunnel_lem world params made digits digits console refl (unfold b64_key_to_hex in refl)
      (unfold b64_key_to_hex in refl) refl (unfold has_byte in refl)
      (unfold set_up_tunnel b64_key_to_hex in refl)

config :
    build_config
      (codes "k")
      7
      (codes "h:1")
      (empty_response 200).server_info
      []
      (codes "10.0.0.2")
      1400
    ≡ codes
        "[Interface]\nPrivateKey = k\nListenPort = 7\nAddress = 10.0.0.2/32, /120\nDNS = 192.168.88.1\nMTU = 1400\n\n[Peer]\nPublicKey = \nEndpoint = h:1\nAllowedIPs = 0.0.0.0/0, ::/0\nPersistentKeepalive = 25\n"
unfolding build_config itoa has_byte is_empty
config = refl

stun_packet : is_stun (0 ∷ 1 ∷ 0 ∷ 0 ∷ 33 ∷ 18 ∷ 164 ∷ 66 ∷ replicate 12 0) ≡ true
unfolding is_stun
stun_packet = refl
