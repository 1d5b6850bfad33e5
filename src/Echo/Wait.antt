-- ===== src/Echo/Wait.antt =====
-- udpecho.go, `waitForEchoResponse`: one wait for the reply to an echo request. The rounds of its
-- loop are a list; each holds what the clock, the context, the socket and the resend answered.
use teleport_client.Base.{
  ℕ, suc, ◌+◌, ◌-◌, ◌*◌, ◌⊎◌, ap, ◌∙◌, ◌≤◌, ◌<◌, ◌≡◌, refl, Bool, true, false, not, ◌&&◌, Option,
  none, some, List, [], ◌∷◌, Text, arith, length, ltb, leb, if◌then◌else◌, text_eq, text_eq→eq,
  get_elem?, inl, inr, is_some,
}
use teleport_client.Echo.{second}

abbrev pub steady_state_echo_deadline : ℕ
steady_state_echo_deadline = 3 * second

abbrev pub startup_retry_interval : ℕ
startup_retry_interval = 3 * second

abbrev pub startup_ceiling : ℕ
startup_ceiling = 95 * second

pub data ReadResult : Type 0 where
  timed_out : ReadResult
  read_failed : ReadResult
  packet : Text → ReadResult

pub record ReadRound : Type 0 where
  pub now : ℕ
  pub cancelled_before : Bool
  pub result : ReadResult
  pub cancelled_after : Bool
  pub resend_ok : Bool

pub data Verdict : Type 0 where
  finish : Bool → Verdict
  again : Verdict
  resent : Verdict

-- The deadline that a round sets for its read.
unfoldable pub read_deadline : ℕ → ℕ → ℕ → ℕ
read_deadline retry_interval ceiling now =
    if ltb ceiling (now + retry_interval) then ceiling else now + retry_interval

-- `parse` is `parseUDPEchoResponse`: the request id of a reply, or an error. `has_resend` is whether
-- `resend` is not nil.
module _ (parse : Text → Option Text) (want_id : Text) (is_startup has_resend : Bool)
    (ceiling : ℕ) where
  unfoldable pub on_packet : Option Text → Verdict
  on_packet none = again
  on_packet (some id) = if text_eq id want_id then finish true else again

  unfoldable pub on_timeout : ReadRound → Verdict
  on_timeout r =
      if r.cancelled_after
      then finish false
      else if not is_startup
      then finish false
      else if not has_resend
      then again
      else if r.resend_ok
      then resent
      else finish false

  unfoldable pub on_read : ReadRound → ReadResult → Verdict
  unfolding on_packet on_timeout
  on_read r timed_out = on_timeout r
  on_read r read_failed = finish false
  on_read r (packet bytes) = on_packet (parse bytes)

  unfoldable pub round_verdict : ReadRound → Verdict
  unfolding on_read
  round_verdict r =
      if leb ceiling r.now
      then finish false
      else if r.cancelled_before
      then finish false
      else on_read r r.result

  -- The answer and the number of resends; `none` while the loop still waits.
  unfoldable pub wait_for_echo_response : ℕ → List ReadRound → Option (Bool × ℕ)
  wait_for_echo_response resends [] = none
  wait_for_echo_response resends (r ∷ rs) = elim (round_verdict r) [
    | finish matched ↦ some (matched, resends)
    | again ↦ wait_for_echo_response resends rs
    | resent ↦ wait_for_echo_response (resends + 1) rs
  ]

-- A wait that starts at `started`, without a resend.
unfoldable pub wait_for_steady_state_response :
    (Text → Option Text) → Text → ℕ → List ReadRound → Option (Bool × ℕ)
wait_for_steady_state_response parse want_id started rounds =
    wait_for_echo_response parse want_id false false (started + steady_state_echo_deadline) 0 rounds

-- `started` is when the request was sent and `now` when the wait starts.
unfoldable pub wait_for_startup_response :
    (Text → Option Text) → Text → ℕ → ℕ → List ReadRound → Option (Bool × ℕ)
wait_for_startup_response parse want_id started now rounds =
    if leb startup_ceiling (now - started)
    then some (false, 0)
    else wait_for_echo_response parse want_id true true (now + (startup_ceiling - (now - started)))
        0 rounds

pub verdict_cases : (v : Verdict) → ((b : Bool) × (v ≡ finish b)) ⊎ ((v ≡ again) ⊎ (v ≡ resent))
verdict_cases (finish b) = inl (b, refl)
verdict_cases again = inr (inl refl)
verdict_cases resent = inr (inr refl)

-- The clock reads later in each round than in the one before, and at least `t` in the first.
unfoldable pub ticking : ℕ → List ReadRound → Bool
ticking t [] = true
ticking t (r ∷ rs) = leb t r.now && ticking (r.now + 1) rs

module _ (parse : Text → Option Text) (want_id : Text) (is_startup has_resend : Bool)
    (ceiling : ℕ) where
  -- A reply that the wait accepts.
  pub record Accepts (r : ReadRound) : Type 0 where
    pub bytes : Text
    pub read : r.result ≡ packet bytes
    pub parsed : parse bytes ≡ some want_id
    pub in_time : r.now < ceiling

  on_packet-match :
      (r : ReadRound) (bytes : Text) (o : Option Text)
      → r.result ≡ packet bytes
      → parse bytes ≡ o
      → r.now < ceiling
      → on_packet parse want_id is_startup has_resend ceiling o ≡ finish true
      → Accepts r
  unfolding on_packet
  on_packet-match r bytes none q p l e = cc
  on_packet-match r bytes (some id) q p l e = record {
    bytes = bytes;
    read = q;
    in_time = l;
    parsed = p ∙ ap some (text_eq→eq id want_id (ground arith));
  }

  on_read-match :
      (r : ReadRound) (x : ReadResult)
      → r.result ≡ x
      → r.now < ceiling
      → on_read parse want_id is_startup has_resend ceiling r x ≡ finish true
      → Accepts r
  unfolding on_read
  on_read-match r timed_out q l e = absurd (ground arith)
  on_read-match r read_failed q l e = cc
  on_read-match r (packet bytes) q l e = on_packet-match r bytes (parse bytes) q refl l e

  round_verdict-Accepts :
      (r : ReadRound)
      → round_verdict parse want_id is_startup has_resend ceiling r ≡ finish true
      → Accepts r
  round_verdict-Accepts r e =
      on_read-match r r.result refl (unfold round_verdict in ground arith)
        (unfold round_verdict in ground arith)

  -- A wait that matches has read, before the ceiling, a reply with the id that it waits for.
  pub wait-match :
      (n k : ℕ) (rs : List ReadRound)
      → wait_for_echo_response parse want_id is_startup has_resend ceiling n rs ≡ some (true, k)
      → (i : ℕ) × (r : ReadRound) × (get_elem? rs i ≡ some r) × Accepts r
  wait-match n k [] e = unfold wait_for_echo_response in cc
  wait-match n k (r ∷ rs) e =
      elim (verdict_cases (round_verdict parse want_id is_startup has_resend ceiling r)) [
        | inl (b, v) ↦ (
          0,
          r,
          refl,
          round_verdict-Accepts r
              (v ∙ ap finish (unfold wait_for_echo_response in first_match b v)),
        )
        | inr (inl v) ↦ later (
            wait-match n k rs
              (unfold wait_for_echo_response in rw (v, wait_for_echo_response) at e))
        | inr (inr v) ↦ later (
            wait-match (n + 1) k rs
              (unfold wait_for_echo_response in rw (v, wait_for_echo_response) at e))
      ]
    where
      first_match :
          (b : Bool)
          → round_verdict parse want_id is_startup has_resend ceiling r ≡ finish b
          → b ≡ true
      first_match b v = unfold wait_for_echo_response in ground arith

      later :
          (i : ℕ) × (q : ReadRound) × (get_elem? rs i ≡ some q) × Accepts q
          → (i : ℕ) × (q : ReadRound) × (get_elem? (r ∷ rs) i ≡ some q) × Accepts q
      later (i, q, g, a) = (suc i, q, g, a)

  past_ceiling :
      (r : ReadRound)
      → ceiling ≤ r.now
      → round_verdict parse want_id is_startup has_resend ceiling r ≡ finish false
  unfolding round_verdict
  past_ceiling r h = ground arith

  -- A wait has an answer, if its clock ticks and there are more rounds than ticks up to the ceiling.
  pub wait-ends :
      (n t : ℕ) (rs : List ReadRound)
      → ticking t rs ≡ true
      → ceiling - t < length rs
      → is_some (wait_for_echo_response parse want_id is_startup has_resend ceiling n rs) ≡ true
  unfolding wait_for_echo_response ticking
  wait-ends n t [] h l = absurd (omega arith)
  wait-ends n t (r ∷ rs) h l =
      ground (arith, past_ceiling r, wait-ends n (r.now + 1) rs, wait-ends (n + 1) (r.now + 1) rs)
