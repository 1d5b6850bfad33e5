-- ===== src/Device/Setup.antt =====
-- What the tunnel is set up with: the MTU of the stack and the prober agree, and the device reads back its
-- configuration line by line.
use teleport_client.Base.{
  ℕ, zero, suc, ◌+◌, ◌≤◌, ◌≡◌, refl, sym, ap, subst, ◌∙◌, Bool, true, false, not, ◌&&◌, ◌||◌,
  Option, none, some, [], ◌∷◌, ◌++◌, Text, codes, leb, ◌==◌, if◌then◌else◌, has_byte, split_on,
  itoa, pos, max, length, arith, Bool-cases, inl, inr,
}
use teleport_client.PathMtu.{discover_path_mtu}
use teleport_client.PathMtu.Bounds.{discover_path_mtu_bounds}
use teleport_client.PeerMtu.{base_tunnel_mtu, new_peer_mtu_prober, new_auto_prober}
use teleport_client.PeerMtu.Invariant.{IsValid, new_peer_mtu_prober-IsValid}
use teleport_client.Device.{
  TunnelWorld, TunnelParams, TunnelSetup, UdpAddr, set_up_at, set_up_tunnel, ipc_text,
  b64_key_to_hex, checked_key, hex_encode, line,
}
use teleport_client.Device.Keys.{has_byte-hex_encode, has_byte-itoa_from}

has_byte-append :
    (c : ℕ) (s t : Text) → has_byte c s ≡ false → has_byte c t ≡ false → has_byte c (s ++ t) ≡ false
unfolding has_byte
has_byte-append c [] t h g = g
has_byte-append c (d ∷ s) t h g = ground (arith, h, has_byte-append c s t)

-- A text that ends in a line end begins with its first line.
split_on-first :
    (text rest : Text)
    → has_byte 10 text ≡ false
    → split_on 10 (line text rest) ≡ text ∷ split_on 10 rest
unfolding split_on has_byte
split_on-first [] rest h = refl
split_on-first (c ∷ text) rest h = elim (Bool-cases (c == 10)) [
  | inl e ↦ ground (arith, h, e)
  | inr e ↦ rw (e, split_on-first text rest (ground (arith, h))) refl
]

-- The lines of the text that the device is given, where no part of it has a line end.
split_on-ipc_text :
    (priv_hex : Text) (port : ℕ) (peer_pub_hex endpoint : Text)
    → has_byte 10 priv_hex ≡ false
    → has_byte 10 peer_pub_hex ≡ false
    → has_byte 10 endpoint ≡ false
    → split_on 10 (ipc_text priv_hex port peer_pub_hex endpoint)
      ≡ (codes "private_key=" ++ priv_hex)
        ∷ (codes "listen_port=" ++ itoa port)
        ∷ (codes "public_key=" ++ peer_pub_hex)
        ∷ (codes "endpoint=" ++ endpoint)
        ∷ codes "persistent_keepalive_interval=25"
        ∷ codes "allowed_ip=0.0.0.0/0"
        ∷ codes "allowed_ip=::/0"
        ∷ []
        ∷ []
unfolding ipc_text
split_on-ipc_text priv_hex port peer_pub_hex endpoint h g k =
    split_on-first (codes "private_key=" ++ priv_hex) after_private
      (has_byte-append 10 (codes "private_key=") priv_hex (unfold has_byte in refl) h)
    ∙ ap (◌∷◌ (codes "private_key=" ++ priv_hex)) (
        split_on-first (codes "listen_port=" ++ itoa port) after_port
          (has_byte-append 10 (codes "listen_port=") (itoa port) (unfold has_byte in refl) no_end)
        ∙ ap (◌∷◌ (codes "listen_port=" ++ itoa port)) (
            split_on-first (codes "public_key=" ++ peer_pub_hex) after_public
              (has_byte-append 10 (codes "public_key=") peer_pub_hex (unfold has_byte in refl) g)
            ∙ ap (◌∷◌ (codes "public_key=" ++ peer_pub_hex)) (
                split_on-first (codes "endpoint=" ++ endpoint) after_endpoint
                  (has_byte-append 10 (codes "endpoint=") endpoint (unfold has_byte in refl) k)
                ∙ ap (◌∷◌ (codes "endpoint=" ++ endpoint)) (unfold split_on in refl))))
  where
    no_end : has_byte 10 (itoa port) ≡ false
    no_end = unfold itoa in has_byte-itoa_from (port + 1) port [] (unfold has_byte in refl)

    after_endpoint : Text
    after_endpoint =
        line (codes "persistent_keepalive_interval=25")
          (line (codes "allowed_ip=0.0.0.0/0") (line (codes "allowed_ip=::/0") (codes "")))

    after_public : Text
    after_public = line (codes "endpoint=" ++ endpoint) after_endpoint

    after_port : Text
    after_port = line (codes "public_key=" ++ peer_pub_hex) after_public

    after_private : Text
    after_private = line (codes "listen_port=" ++ itoa port) after_port

confirmed-new_peer_mtu_prober :
    (initial target manual : ℕ)
    → 1280 ≤ initial
    → (new_peer_mtu_prober initial target manual).confirmed_mtu
      ≡ (if manual == 0 then initial else manual)
unfolding new_peer_mtu_prober new_auto_prober
confirmed-new_peer_mtu_prober initial target zero h = ground (arith, h)
confirmed-new_peer_mtu_prober initial target (suc n) h = ground arith

target-new_peer_mtu_prober :
    (initial target manual : ℕ)
    → (new_peer_mtu_prober initial target manual).max_target_mtu ≤ max 1280 (max target manual)
unfolding new_peer_mtu_prober new_auto_prober
target-new_peer_mtu_prober initial target zero = ground arith
target-new_peer_mtu_prober initial target (suc n) = ground arith

has_byte-checked_key :
    (o : Option Text) (digits : Text) → checked_key o ≡ some digits → has_byte 10 digits ≡ false
has_byte-checked_key none digits e = cc
has_byte-checked_key (some decoded) digits e = by_length (length decoded == 32) e
  where
    by_length :
        (fits : Bool)
        → (if not fits then none else some (hex_encode decoded)) ≡ some digits
        → has_byte 10 digits ≡ false
    by_length false e = cc
    by_length true e =
        let same : hex_encode decoded ≡ digits = cc in
        subst (λ d. has_byte 10 d ≡ false) same (has_byte-hex_encode decoded)

-- The MTU that the flags accept: none, or a size within the bounds.
abbrev pub is_accepted_mtu : ℕ → Bool
is_accepted_mtu mtu = mtu == 0 || (leb 1280 mtu && leb mtu 1500)

module _ (w : TunnelWorld) (p : TunnelParams) (accepted : is_accepted_mtu p.mtu ≡ true) where
  abbrev IsSetUp : TunnelSetup → Type 0
  IsSetUp t =
      IsValid t.prober
      × (t.prober.confirmed_mtu ≡ t.stack_mtu)
      × (1280 ≤ t.stack_mtu)
      × (t.prober.max_target_mtu ≤ 1500)

  set_up_at-IsSetUp :
      (priv_hex peer_pub_hex : Text) (addr : UdpAddr)
      → IsSetUp (set_up_at w p priv_hex peer_pub_hex addr)
  set_up_at-IsSetUp priv_hex peer_pub_hex addr =
      let (floor, room, route) = discover_path_mtu_bounds w.routes addr.ip (pos addr.port) in
      by_mode (discover_path_mtu w.routes (some addr.ip) (pos addr.port)) floor
        (omega (arith, room))
    where
      same_either :
          (b : Bool)
          → (if b then if b then base_tunnel_mtu else p.mtu else p.mtu)
            ≡ (if b then base_tunnel_mtu else p.mtu)
      same_either true = refl
      same_either false = refl

      by_mode :
          (found : ℕ)
          → 1280 ≤ found
          → found ≤ 1500
          → IsValid (
              new_peer_mtu_prober
                (if p.mtu == 0 then base_tunnel_mtu else p.mtu)
                (if p.mtu == 0 then found else p.mtu)
                p.mtu)
            × ((new_peer_mtu_prober
                  (if p.mtu == 0 then base_tunnel_mtu else p.mtu)
                  (if p.mtu == 0 then found else p.mtu)
                  p.mtu).confirmed_mtu
                ≡ (if p.mtu == 0 then base_tunnel_mtu else p.mtu))
            × (1280 ≤ (if p.mtu == 0 then base_tunnel_mtu else p.mtu))
            × ((new_peer_mtu_prober
                  (if p.mtu == 0 then base_tunnel_mtu else p.mtu)
                  (if p.mtu == 0 then found else p.mtu)
                  p.mtu).max_target_mtu
                ≤ 1500)
      by_mode found least most = (
        new_peer_mtu_prober-IsValid (if p.mtu == 0 then base_tunnel_mtu else p.mtu)
            (if p.mtu == 0 then found else p.mtu) p.mtu
            (λ automatic. ground (arith, automatic, least))
            (λ manual. ground (arith, manual, accepted)),
        confirmed-new_peer_mtu_prober (if p.mtu == 0 then base_tunnel_mtu else p.mtu)
              (if p.mtu == 0 then found else p.mtu) p.mtu (ground (arith, accepted))
            ∙ same_either (p.mtu == 0),
        ground (arith, accepted),
        ground (
          arith,
          accepted,
          most,
          target-new_peer_mtu_prober (if p.mtu == 0 then base_tunnel_mtu else p.mtu)
              (if p.mtu == 0 then found else p.mtu) p.mtu,
        ),
      )

-- With an MTU that the flags accept, the tunnel is set up with a valid prober that has confirmed the MTU
-- of the stack, which is at least 1280, and that probes for no more than 1500. The device reads its
-- configuration as seven lines: the two keys in digits, the port, the endpoint, and the constants, where
-- the text of the endpoint has no line end.
pub set_up_tunnel_lem :
    (w : TunnelWorld) (p : TunnelParams) (t : TunnelSetup) (priv_hex peer_pub_hex : Text)
    (addr : UdpAddr)
    → is_accepted_mtu p.mtu ≡ true
    → b64_key_to_hex w.decode p.priv ≡ some priv_hex
    → b64_key_to_hex w.decode p.conn_resp.server_info.wg_pub_key ≡ some peer_pub_hex
    → w.resolve p.endpoint ≡ some addr
    → has_byte 10 addr.text ≡ false
    → set_up_tunnel w p ≡ some t
    → IsValid t.prober
      × (t.prober.confirmed_mtu ≡ t.stack_mtu)
      × (1280 ≤ t.stack_mtu)
      × (t.prober.max_target_mtu ≤ 1500)
      × (split_on 10 t.ipc
          ≡ (codes "private_key=" ++ priv_hex)
            ∷ (codes "listen_port=" ++ itoa p.port)
            ∷ (codes "public_key=" ++ peer_pub_hex)
            ∷ (codes "endpoint=" ++ addr.text)
            ∷ codes "persistent_keepalive_interval=25"
            ∷ codes "allowed_ip=0.0.0.0/0"
            ∷ codes "allowed_ip=::/0"
            ∷ []
            ∷ [])
set_up_tunnel_lem w p t priv_hex peer_pub_hex addr accepted private public resolved no_end e =
    let made = same_setup (sym computed ∙ e) in
    let (valid, confirmed, floor, ceiling) =
      subst (IsSetUp w p accepted) made
        (set_up_at-IsSetUp w p accepted priv_hex peer_pub_hex addr) in
    (
      valid,
      confirmed,
      floor,
      ceiling,
      ap (λ u. split_on 10 u.ipc) (sym made)
          ∙ split_on-ipc_text priv_hex p.port peer_pub_hex addr.text
              (has_byte-checked_key (w.decode p.priv) priv_hex (unfold b64_key_to_hex in private))
              (has_byte-checked_key (w.decode p.conn_resp.server_info.wg_pub_key) peer_pub_hex
                (unfold b64_key_to_hex in public))
              no_end,
    )
  where
    computed : set_up_tunnel w p ≡ some (set_up_at w p priv_hex peer_pub_hex addr)
    computed = unfold set_up_tunnel in rw (private, public, resolved) refl

    same_setup :
        some (set_up_at w p priv_hex peer_pub_hex addr) ≡ some t
        → set_up_at w p priv_hex peer_pub_hex addr ≡ t
    same_setup h = cc
