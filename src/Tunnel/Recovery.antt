-- ===== src/Tunnel/Recovery.antt =====
-- tunnel.go: `recoverWireGuardEndpoints`: the cycle through the known endpoints after a loss of health.
use teleport_client.Base.{
  ℕ, zero, suc, ◌+◌, ◌*◌, ◌≤◌, min, ◌≡◌, refl, sym, ap, ◌∙◌, Bool, true, text_eq_refl, false, not,
  ◌||◌, List, [], ◌∷◌, ◌++◌, Text, text_eq, contains, length, length-append, if◌then◌else◌, arith,
  append_all, append_all-fresh, fresh, contains-fresh,
}
use mathlib.Core.List.{append_assoc, append-nil}
use teleport_client.Echo.{second}

abbrev pub endpoint_recovery_interval : ℕ
endpoint_recovery_interval = 15 * second

abbrev pub endpoint_recovery_max_backoff : ℕ
endpoint_recovery_max_backoff = 30 * second

abbrev pub endpoint_recovery_rounds : ℕ
endpoint_recovery_rounds = 2

unfoldable pub build_endpoint_recovery_order : Text → List Text → List Text
unfolding append_all
build_endpoint_recovery_order current known =
    (append_all (record { seen = []; out = [] }) (current ∷ known)).out

-- What the world answers at a time: whether the context is done, whether a wait of a length comes to
-- its end, how a switch of the device ends and how long it takes, and which case of the last `select`
-- is taken.
pub record RecoveryWorld : Type 0 where
  pub cancelled : ℕ → Bool
  pub completes : ℕ → ℕ → Bool
  pub switch_ok : ℕ → Text → Bool
  pub switch_time : ℕ → Text → ℕ
  pub signal_sent : ℕ → Bool

-- The clock, `currentEndpoint`, and the endpoints that `switchEndpoint` has been called with.
pub record RecoveryState : Type 0 where
  pub now : ℕ
  pub current_endpoint : Text
  pub attempts : List Text

pub data RecoveryEnd : Type 0 where
  exhausted stopped : RecoveryEnd

module _ (w : RecoveryWorld) where
  unfoldable pub attempt : Text → RecoveryState → RecoveryState
  attempt endpoint st = record {
    now = st.now + w.switch_time st.now endpoint;
    current_endpoint = if w.switch_ok st.now endpoint then endpoint else st.current_endpoint;
    attempts = st.attempts ++ endpoint ∷ [];
  }

  abbrev pub later : ℕ → RecoveryState → RecoveryState
  later d st = record st { now = st.now + d }

  -- The inner loop; the answer is whether the function goes on.
  unfoldable pub try_endpoints : List Text → RecoveryState → RecoveryState × Bool
  unfolding attempt
  try_endpoints [] st = (st, true)
  try_endpoints (endpoint ∷ endpoints) st =
      let tried = attempt endpoint st in
      let rest = try_endpoints endpoints (later endpoint_recovery_interval tried) in
      if w.cancelled st.now
      then (st, false)
      else if w.completes tried.now endpoint_recovery_interval
      then rest
      else (tried, false)

  -- The outer loop, with the rounds that are left.
  unfoldable pub recovery_rounds : ℕ → ℕ → List Text → RecoveryState → RecoveryState × RecoveryEnd
  unfolding try_endpoints build_endpoint_recovery_order
  recovery_rounds zero backoff known st = (st, if w.signal_sent st.now then exhausted else stopped)
  recovery_rounds (suc left) backoff known st =
      let (tried, goes_on) =
        try_endpoints (build_endpoint_recovery_order st.current_endpoint known) st in
      let rest =
        recovery_rounds left (min (backoff * 2) endpoint_recovery_max_backoff) known
          (later backoff tried) in
      if not goes_on
      then (tried, stopped)
      else if w.completes tried.now backoff
      then rest
      else (tried, stopped)

  unfoldable pub recover_wire_guard_endpoints : ℕ → Text → List Text → RecoveryState × RecoveryEnd
  unfolding recovery_rounds
  recover_wire_guard_endpoints now current known =
      recovery_rounds endpoint_recovery_rounds (5 * second) known
        (record { now = now; current_endpoint = current; attempts = [] })

  order-fresh :
      (current : Text) (known : List Text)
      → build_endpoint_recovery_order current known ≡ fresh [] (current ∷ known)
  unfolding build_endpoint_recovery_order
  order-fresh current known = append_all-fresh (record { seen = []; out = [] }) (current ∷ known)

  carry :
      (ok : Bool) (e before : Text) (es : List Text) (now : Text)
      → (text_eq (if ok then e else before) now || contains es now) ≡ true
      → (text_eq before now || contains (e ∷ es) now) ≡ true
  unfolding contains
  carry ok e before es now h = ground arith

  -- When a pass over the endpoints ends that begins at a time and stays 15 s on each, and which endpoint
  -- it ends on: the last one to which the switch has succeeded, or else the one it began on.
  unfoldable pub pass_end : ℕ → List Text → ℕ
  pass_end now [] = now
  pass_end now (e ∷ es) = pass_end (now + w.switch_time now e + 15 * second) es

  unfoldable pub last_switched : ℕ → Text → List Text → Text
  last_switched now before [] = before
  last_switched now before (e ∷ es) =
      last_switched (now + w.switch_time now e + 15 * second)
        (if w.switch_ok now e then e else before) es

  -- Where the first pass ends, and when the second one begins.
  abbrev pub endpoint_between : ℕ → Text → List Text → Text
  endpoint_between now current known = last_switched now current (fresh [] (current ∷ known))

  abbrev pub time_between : ℕ → Text → List Text → ℕ
  time_between now current known = pass_end now (fresh [] (current ∷ known)) + 5 * second

  abbrev pub second_pass : ℕ → Text → List Text → List Text
  second_pass now current known = fresh [] (endpoint_between now current known ∷ known)

  -- The state after the inner loop, when nothing ends it early.
  record TriesAll (endpoints : List Text) (st : RecoveryState) (r : RecoveryState × Bool)
      : Type 0 where
    goes_on : r.1 ≡ true
    tried : r.0.attempts ≡ st.attempts ++ endpoints
    waited : st.now + endpoint_recovery_interval * length endpoints ≤ r.0.now
    ended : r.0.now ≡ pass_end st.now endpoints
    switched : r.0.current_endpoint ≡ last_switched st.now st.current_endpoint endpoints
    current :
        (text_eq st.current_endpoint r.0.current_endpoint
          || contains endpoints r.0.current_endpoint)
        ≡ true

  module _ (never_cancelled : (t : ℕ) → w.cancelled t ≡ false)
      (waits : (t d : ℕ) → w.completes t d ≡ true) where
    try_endpoints-TriesAll :
        (endpoints : List Text) (st : RecoveryState)
        → TriesAll endpoints st (try_endpoints endpoints st)
    unfolding try_endpoints attempt pass_end last_switched
    try_endpoints-TriesAll [] st = record {
      goes_on = refl;
      tried = sym (append-nil st.attempts);
      waited = omega arith;
      ended = refl;
      switched = refl;
      current = ground (arith, text_eq_refl st.current_endpoint);
    }
    try_endpoints-TriesAll (e ∷ es) st =
        let ih = try_endpoints-TriesAll es (later endpoint_recovery_interval (attempt e st)) in
        rw
          (
            never_cancelled st.now,
            waits (attempt e st).now endpoint_recovery_interval,
            try_endpoints,
          )
          (record {
            goes_on = ih.goes_on;
            tried = ih.tried ∙ append_assoc st.attempts (e ∷ []) es;
            waited = omega (arith, ih.waited);
            ended = ih.ended;
            switched = ih.switched;
            current = carry (w.switch_ok st.now e) e st.current_endpoint es _ ih.current;
          })

    -- The first round, and the second one from where it ends.
    abbrev round_one : ℕ → Text → List Text → RecoveryState
    round_one now current known =
        (try_endpoints (build_endpoint_recovery_order current known)
          (record { now = now; current_endpoint = current; attempts = [] })).0

    abbrev round_two : ℕ → Text → List Text → RecoveryState
    round_two now current known =
        let st = later (5 * second) (round_one now current known) in
        (try_endpoints (build_endpoint_recovery_order st.current_endpoint known) st).0

    rounds-two :
        (now : ℕ) (current : Text) (known : List Text)
        → recover_wire_guard_endpoints now current known ≡ (
            let st = later (10 * second) (round_two now current known) in
            (st, if w.signal_sent st.now then exhausted else stopped))
    unfolding recover_wire_guard_endpoints recovery_rounds
    rounds-two now current known =
        let st : RecoveryState = record { now = now; current_endpoint = current; attempts = [] } in
        let one = try_endpoints-TriesAll (build_endpoint_recovery_order current known) st in
        let st2 = later (5 * second) (round_one now current known) in
        let two =
          try_endpoints-TriesAll (build_endpoint_recovery_order st2.current_endpoint known) st2 in
        rw
          (
            one.goes_on,
            waits (round_one now current known).now (5 * second),
            two.goes_on,
            waits (round_two now current known).now (10 * second),
          )
          refl

    -- When nothing cancels it, the recovery makes its two rounds: it tries the endpoint in use and the
    -- known ones in order, without empty ones and repeats, then again starting from the endpoint it is
    -- on by then, which is the last one to which a switch has succeeded, or else the one in use at
    -- first, and one of them; and it ends on the last one of the second round to which a switch has
    -- succeeded, or else on the one that the round began with. It stays 15 s on each and 15 s more
    -- between and after the rounds, and then reports that they are exhausted, unless the context ends
    -- first.
    pub recover_wire_guard_endpoints_lem :
        (now : ℕ) (current : Text) (known : List Text)
        → (contains (current ∷ known) (endpoint_between now current known) ≡ true)
          × ((recover_wire_guard_endpoints now current known).0.attempts
              ≡ fresh [] (current ∷ known) ++ second_pass now current known)
          × ((recover_wire_guard_endpoints now current known).0.current_endpoint
              ≡ last_switched
                  (time_between now current known)
                  (endpoint_between now current known)
                  (second_pass now current known))
          × ((recover_wire_guard_endpoints now current known).0.now
              ≡ pass_end (time_between now current known) (second_pass now current known)
                + 10 * second)
          × (now
                + 15 * second * length (recover_wire_guard_endpoints now current known).0.attempts
                + 15 * second
              ≤ (recover_wire_guard_endpoints now current known).0.now)
          × ((recover_wire_guard_endpoints now current known).1 ≡ (
              if w.signal_sent (recover_wire_guard_endpoints now current known).0.now
              then exhausted
              else stopped))
    recover_wire_guard_endpoints_lem now current known =
        let st : RecoveryState = record { now = now; current_endpoint = current; attempts = [] } in
        let one = try_endpoints-TriesAll (build_endpoint_recovery_order current known) st in
        let st2 = later (5 * second) (round_one now current known) in
        let two =
          try_endpoints-TriesAll (build_endpoint_recovery_order st2.current_endpoint known) st2 in
        let first = order-fresh current known in
        let between : st2.current_endpoint ≡ endpoint_between now current known =
          one.switched ∙ ap (last_switched now current) first in
        let begun : st2.now ≡ time_between now current known =
          ap (λ t. t + 5 * second) (one.ended ∙ ap (pass_end now) first) in
        let next : build_endpoint_recovery_order st2.current_endpoint known
            ≡ second_pass now current known =
          order-fresh st2.current_endpoint known ∙ ap (λ c. fresh [] (c ∷ known)) between in
        rw (rounds-two now current known) (
          rw (sym between) (one_of st2.current_endpoint (rw (sym first) one.current)),
          rw (two.tried, one.tried, first, next) refl,
          rw (two.switched, next, between, begun) refl,
          ap (λ t. t + 10 * second) (two.ended ∙ rw (next, begun) refl),
          rw (two.tried, one.tried, length-append) (omega (arith, one.waited, two.waited)),
          refl,
        )
      where
        one_of :
            (c : Text)
            → (text_eq current c || contains (fresh [] (current ∷ known)) c) ≡ true
            → contains (current ∷ known) c ≡ true
        one_of c h =
            let kept = contains-fresh [] (current ∷ known) c in
            unfold contains in ground (arith, kept, h)
