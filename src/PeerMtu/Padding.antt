-- ===== src/PeerMtu/Padding.antt =====
-- peermtu.go: the echo request, padded so that the datagram that carries it has a given size.
use teleport_client.Base.{
  ℕ, zero, suc, ◌+◌, ◌-◌, ◌≤◌, ◌<◌, ◌≡◌, refl, ap, ◌∙◌, [], ◌∷◌, ◌++◌, Text, codes, arith, length,
  length-append, length-replicate, replicate, ltb, leb, itoa, json_string, escape-replicate_A,
  is_empty, if◌then◌else◌,
}

pub record EchoProbePayload : Type 0 where
  pub session_secret_hash : Text
  pub request_id : Text
  pub timeout : ℕ
  pub padding : Text

-- `json:"pad,omitempty"`.
unfoldable pub pad_member : Text → Text
pad_member padding = if is_empty padding then [] else codes ",\"pad\":" ++ json_string padding

unfoldable pub marshal : EchoProbePayload → Text
marshal r =
    codes "{\"session_secret_hash\":"
    ++ (json_string r.session_secret_hash
        ++ (codes ",\"req_id\":"
            ++ (json_string r.request_id
                ++ (codes ",\"timeout\":"
                    ++ (itoa r.timeout ++ (pad_member r.padding ++ codes "}"))))))

abbrev pub with_padding : EchoProbePayload → ℕ → EchoProbePayload
with_padding r n = record r { padding = replicate n b'A' }

-- `for len(padded) < targetPayloadLen { req.Padding += "A"; … }`, with the padding's length.
unfoldable pub grow : EchoProbePayload → ℕ → ℕ → ℕ → ℕ
grow r target zero n = n
grow r target (suc fuel) n =
    let longer = grow r target fuel (n + 1) in
    if ltb (length (marshal (with_padding r n))) target then longer else n

-- `for len(padded) > targetPayloadLen && len(req.Padding) > 0 { … }`.
unfoldable pub shrink : EchoProbePayload → ℕ → ℕ → ℕ
shrink r target zero = 0
shrink r target (suc n) =
    let shorter = shrink r target n in
    if ltb target (length (marshal (with_padding r (suc n)))) then shorter else suc n

unfoldable pub target_payload_len : ℕ → ℕ → ℕ
target_payload_len target_packet_size ip_header_len =
    let len = target_packet_size - ip_header_len - 8 in if ltb len 64 then 64 else len

-- The first loop adds at most `target` bytes, which is its fuel.
unfoldable pub build_padded_echo_payload : Text → Text → ℕ → ℕ → ℕ → Text
build_padded_echo_payload secret_hash req_id timeout_ms target_packet_size ip_header_len =
    let target = target_payload_len target_packet_size ip_header_len in
    let req : EchoProbePayload = record {
      session_secret_hash = secret_hash;
      request_id = req_id;
      timeout = timeout_ms;
      padding = [];
    } in
    let base = marshal req in
    let grown = grow req target target (target - length base - 9) in
    if leb target (length base)
    then base
    else if ltb (target - length base) 9
    then base
    else marshal (with_padding req (shrink req target grown))

-- A JSON object grows by its `pad` member alone, whatever the other members are.
length_insert :
    (a b c d e f x y : Text)
    → length (a ++ (b ++ (c ++ (d ++ (e ++ (f ++ (x ++ y)))))))
      ≡ length (a ++ (b ++ (c ++ (d ++ (e ++ (f ++ ([] ++ y))))))) + length x
length_insert a b c d e f x y = omega (arith, length-append {0})

length-marshal :
    (r : EchoProbePayload)
    → length (marshal r)
      ≡ length (marshal (record r { padding = [] })) + length (pad_member r.padding)
unfolding marshal pad_member is_empty
length-marshal r =
    length_insert (codes "{\"session_secret_hash\":") (json_string r.session_secret_hash)
      (codes ",\"req_id\":") (json_string r.request_id) (codes ",\"timeout\":") (itoa r.timeout)
      (pad_member r.padding) (codes "}")

length-pad_member : (n : ℕ) → length (pad_member (replicate (suc n) b'A')) ≡ suc n + 9
unfolding pad_member is_empty json_string
length-pad_member n = rw (escape-replicate_A (suc n)) (
    omega (
      arith,
      length-append {A = ℕ} (replicate (suc n) 65) (34 ∷ []),
      length-replicate {A = ℕ} (suc n) 65,
    ))

length-padded :
    (r : EchoProbePayload) (n : ℕ)
    → length (marshal (with_padding r (suc n))) ≡ length (marshal (with_padding r 0)) + (n + 10)
length-padded r n = omega (arith, length-marshal (with_padding r (suc n)), length-pad_member n)

module _ (r : EchoProbePayload) (target : ℕ) where
  grow_stop : (fuel n : ℕ) → target ≤ length (marshal (with_padding r n)) → grow r target fuel n ≡ n
  unfolding grow
  grow_stop zero n h = refl
  grow_stop (suc fuel) n h = ground arith

  shrink_stop : (n : ℕ) → length (marshal (with_padding r n)) ≤ target → shrink r target n ≡ n
  unfolding shrink
  shrink_stop zero h = refl
  shrink_stop (suc n) h = ground arith

  grow_once :
      (fuel : ℕ)
      → length (marshal (with_padding r 0)) < target
      → target ≤ length (marshal (with_padding r 0)) + 10
      → grow r target (suc fuel) 0 ≡ 1
  unfolding grow
  grow_once fuel h k = ground (arith, grow_stop fuel 1, length-padded r 0)

  shrink_once : target < length (marshal (with_padding r 0)) + 10 → shrink r target 1 ≡ 0
  unfolding shrink
  shrink_once h = ground (arith, length-padded r 0)

  -- Room for the member and for a byte in it: the first guess is exact.
  pad_exact :
      length (marshal (with_padding r 0)) + 9 < target
      → length (
          marshal (
            with_padding r (
              shrink r target
                (grow r target target (target - length (marshal (with_padding r 0)) - 9)))))
        ≡ target
  pad_exact h =
      let k = target - length (marshal (with_padding r 0)) - 10 in
      let needed : target - length (marshal (with_padding r 0)) - 9 ≡ suc k = omega arith in
      let fits : length (marshal (with_padding r (suc k))) ≡ target =
        omega (arith, length-padded r k) in
      rw (needed, grow_stop target (suc k) (omega arith), shrink_stop (suc k) (omega arith)) fits

  -- Room for an empty member alone, which `omitempty` drops: the loops add a byte and take it away.
  pad_none :
      length (marshal (with_padding r 0)) + 9 ≡ target
      → shrink r target (grow r target target (target - length (marshal (with_padding r 0)) - 9))
        ≡ 0
  pad_none h =
      let needed : target - length (marshal (with_padding r 0)) - 9 ≡ 0 = omega arith in
      let k = target - 1 in
      let fuel : target ≡ suc k = omega arith in
      let one : grow r target target 0 ≡ 1 =
        ap (λ f. grow r target f 0) fuel ∙ grow_once k (omega arith) (omega arith) in
      rw (needed, one) (shrink_once (omega arith))

-- The request without padding, and the datagram's room for it.
abbrev pub bare_request : Text → Text → ℕ → Text
bare_request secret_hash req_id timeout_ms = marshal (record {
  session_secret_hash = secret_hash;
  request_id = req_id;
  timeout = timeout_ms;
  padding = [];
})

payload-cases :
    (secret_hash req_id : Text) (timeout_ms packet_size header_len : ℕ)
    → let base = bare_request secret_hash req_id timeout_ms in
      let target = target_payload_len packet_size header_len in
      let payload =
        build_padded_echo_payload secret_hash req_id timeout_ms packet_size header_len in
      (length base + 9 < target → length payload ≡ target)
      × (target ≤ length base + 9 → payload ≡ base)
unfolding build_padded_echo_payload
payload-cases secret_hash req_id timeout_ms packet_size header_len = (exact, as_is)
  where
    req : EchoProbePayload
    req = record {
      session_secret_hash = secret_hash;
      request_id = req_id;
      timeout = timeout_ms;
      padding = [];
    }

    target : ℕ
    target = target_payload_len packet_size header_len

    exact :
        length (marshal req) + 9 < target
        → length (build_padded_echo_payload secret_hash req_id timeout_ms packet_size header_len)
          ≡ target
    exact h = ground (arith, pad_exact req target h)

    as_is :
        target ≤ length (marshal req) + 9
        → build_padded_echo_payload secret_hash req_id timeout_ms packet_size header_len
          ≡ marshal req
    as_is h = ground (arith, pad_none req target)

-- A request with at least ten bytes of room is padded to exactly the wanted length, and any other has
-- the length of the request without padding.
pub length-build_padded_echo_payload :
    (secret_hash req_id : Text) (timeout_ms packet_size header_len : ℕ)
    → length (build_padded_echo_payload secret_hash req_id timeout_ms packet_size header_len) ≡ (
        if ltb
          (length (bare_request secret_hash req_id timeout_ms) + 9)
          (target_payload_len packet_size header_len)
        then target_payload_len packet_size header_len
        else length (bare_request secret_hash req_id timeout_ms))
length-build_padded_echo_payload secret_hash req_id timeout_ms packet_size header_len =
    let (exact, as_is) = payload-cases secret_hash req_id timeout_ms packet_size header_len in
    let same_length : target_payload_len packet_size header_len
          ≤ length (bare_request secret_hash req_id timeout_ms) + 9
        → length (build_padded_echo_payload secret_hash req_id timeout_ms packet_size header_len)
          ≡ length (bare_request secret_hash req_id timeout_ms) =
      λ h. ap length (as_is h) in
    ground (arith, exact, same_length)

-- The datagram that carries a padded request has the size asked for, its IP and UDP headers included.
pub datagram_size :
    (secret_hash req_id : Text) (timeout_ms packet_size header_len : ℕ)
    → length (bare_request secret_hash req_id timeout_ms) + 9 + header_len + 8 < packet_size
    → header_len + 72 ≤ packet_size
    → length (build_padded_echo_payload secret_hash req_id timeout_ms packet_size header_len)
        + header_len
        + 8
      ≡ packet_size
datagram_size secret_hash req_id timeout_ms packet_size header_len room minimum =
    let target : target_payload_len packet_size header_len + header_len + 8 ≡ packet_size =
      target_size in
    omega
      (arith, (payload-cases secret_hash req_id timeout_ms packet_size header_len).0 (omega arith))
  where
    target_size : target_payload_len packet_size header_len + header_len + 8 ≡ packet_size
    target_size = unfold target_payload_len in ground arith
