-- ===== src/Tunnel/Switching.antt =====
-- The loop of `retryEndpointOnHandshakeTimeout`: which candidates it comes to, how often it switches,
-- and when it must end.
use teleport_client.Base.{
  ℕ, zero, suc, ◌+◌, ◌-◌, ◌*◌, ◌≤◌, ◌≡◌, refl, Bool, true, false, not, ◌&&◌, ◌||◌, Option, none,
  some, is_some, List, [], ◌∷◌, Text, is_empty, text_eq, text_eq_refl, contains, length, drop, leb,
  if◌then◌else◌, arith, Bool-cases, Option-cases, inl, inr,
}
use teleport_client.Echo.{second}
use teleport_client.Net.{NetLib}
use teleport_client.Tunnel.Stats.{parse_wire_guard_peer_stats}
use teleport_client.Tunnel.Retry.{
  next_candidate_from, next_endpoint_candidate, Retry, RetryInput, Wakeup, RetryEnd, runs,
  connected, cancelled, exhausted, ticked, context_done, nomination_selected, switch_to,
  candidate_dwell, after_dwell, check_handshake, retry_round,
}

-- All of the list are to be skipped: empty, or the endpoint in use.
unfoldable pub all_skipped : Text → List Text → Bool
all_skipped current [] = true
all_skipped current (x ∷ xs) = (is_empty x || text_eq x current) && all_skipped current xs

next_candidate_from-length :
    (left : List Text) (start : ℕ) (current : Text)
    → ((next_candidate_from left start current).1 ≤ start + length left)
      × (start + (if (next_candidate_from left start current).2 then 1 else 0)
          ≤ (next_candidate_from left start current).1)
      × ((next_candidate_from left start current).2 ≡ not (all_skipped current left))
      × ((next_candidate_from left start current).2 ≡ true
          → contains left (next_candidate_from left start current).0
              && (not (is_empty (next_candidate_from left start current).0)
                  && not (text_eq (next_candidate_from left start current).0 current))
            ≡ true)
unfolding next_candidate_from all_skipped contains
next_candidate_from-length [] start current = (omega arith, omega arith, refl, λ e. cc)
next_candidate_from-length (x ∷ xs) start current =
    let (most, least, found, good) = next_candidate_from-length xs (start + 1) current in
    (
      ground (arith, most),
      ground (arith, least),
      ground (arith, found),
      λ e. ground (arith, good, text_eq_refl x),
    )

length-drop : (n : ℕ) (xs : List Text) → n ≤ length xs → n + length (drop n xs) ≡ length xs
length-drop zero xs h = omega arith
length-drop (suc n) [] h = omega arith
length-drop (suc n) (x ∷ xs) h = omega (arith, length-drop n xs)

-- The next candidate is an entry of the queue from `start` on that is neither empty nor in use; there
-- is none exactly when all of these are to be skipped; and the index moves forward within the queue.
pub next_endpoint_candidate_lem :
    (queue : List Text) (start : ℕ) (current : Text)
    → start ≤ length queue
    → ((next_endpoint_candidate queue start current).1 ≤ length queue)
      × (start + (if (next_endpoint_candidate queue start current).2 then 1 else 0)
          ≤ (next_endpoint_candidate queue start current).1)
      × ((next_endpoint_candidate queue start current).2
          ≡ not (all_skipped current (drop start queue)))
      × ((next_endpoint_candidate queue start current).2 ≡ true
          → contains (drop start queue) (next_endpoint_candidate queue start current).0
              && (not (is_empty (next_endpoint_candidate queue start current).0)
                  && not (text_eq (next_endpoint_candidate queue start current).0 current))
            ≡ true)
unfolding next_endpoint_candidate
next_endpoint_candidate_lem queue start current h =
    let (most, least, found, good) = next_candidate_from-length (drop start queue) start current in
    (omega (arith, most, length-drop start queue h), least, found, good)

-- Whether the device reports a completed handshake.
abbrev pub has_handshake : Option Text → Bool
has_handshake none = false
has_handshake (some ipc_data) = is_some (parse_wire_guard_peer_stats ipc_data).last_handshake

-- What holds of the loop's variables: the index is in the queue, no empty endpoint has been switched
-- to, and each switch has used up an entry of the queue or the one nomination.
unfoldable pub is_within : List Text → Retry → Bool
is_within queue st =
    leb st.queue_idx (length queue)
    && (not (contains st.switched [])
        && leb (length st.switched + (if st.pending then 1 else 0)) (st.queue_idx + 1))

abbrev pub new_retry : Text → ℕ → Bool → Retry
new_retry current now has_nomination = record {
  queue_idx = 0;
  current_endpoint = current;
  last_switch_time = now;
  pending = has_nomination;
  switched = [];
}

switch_to-is_within :
    (queue : List Text) (ok : Bool) (endpoint : Text) (now : ℕ) (st : Retry)
    → leb st.queue_idx (length queue) ≡ true
    → contains st.switched [] ≡ false
    → is_empty endpoint ≡ false
    → length st.switched + (if st.pending then 1 else 0) ≤ st.queue_idx
    → is_within queue (switch_to ok endpoint now st) ≡ true
unfolding is_within switch_to
switch_to-is_within queue false endpoint now st h1 h2 h3 h4 = ground (arith, h1, h2, h4)
switch_to-is_within queue true [] now st h1 h2 h3 h4 = unfold is_empty in cc
switch_to-is_within queue true (c ∷ e) now st h1 h2 h3 h4 =
    unfold contains text_eq in ground (arith, h1, h2, h4)

module _ (net : NetLib) (candidate_types : List (Text × Text)) (queue : List Text)
    (dev_up_time : ℕ) where
  after_dwell-is_within :
      (st : Retry) (i : RetryInput)
      → is_within queue st ≡ true
      → is_within queue (after_dwell net candidate_types queue dev_up_time st i).0 ≡ true
  unfolding is_within after_dwell
  after_dwell-is_within st i h =
      let (most, least, found, good) =
        next_endpoint_candidate_lem queue st.queue_idx st.current_endpoint (ground (arith, h)) in
      elim (Bool-cases (next_endpoint_candidate queue st.queue_idx st.current_endpoint).2) [
        | inl e ↦ rw e (
            switch_to-is_within queue i.next_ok
              (next_endpoint_candidate queue st.queue_idx st.current_endpoint).0 i.now _
              (ground (arith, most)) (ground (arith, h)) (ground (arith, good, e))
              (ground (arith, h, least, e)))
        | inr e ↦ rw e (ground (arith, most, least, h, e))
      ]

  switched_to :
      (i : RetryInput) (st : Retry) (selected : Text)
      → is_within queue st ≡ true
      → st.pending ≡ true
      → (is_empty selected || text_eq selected st.current_endpoint) ≡ false
      → is_within queue (switch_to i.nominated_ok selected i.now (record st { pending = false }))
        ≡ true
  unfolding is_within
  switched_to i st selected h on taken =
      switch_to-is_within queue i.nominated_ok selected i.now (record st { pending = false })
        (ground (arith, h)) (ground (arith, h)) (ground (arith, taken)) (ground (arith, h, on))

  abbrev pub round : Retry → RetryInput → Retry × RetryEnd
  round st i = retry_round net candidate_types queue dev_up_time st i

  check_handshake-is_within :
      (st : Retry) (i : RetryInput)
      → is_within queue st ≡ true
      → is_within queue (check_handshake net candidate_types queue dev_up_time st i).0 ≡ true
  check_handshake-is_within st i h = elim (Option-cases i.ipc_data) [
    | inl e ↦ unfold check_handshake in rw e h
    | inr (report, e) ↦
        unfold check_handshake in rw e (ground (arith, after_dwell-is_within st i h, h))
  ]

  nominated-is_within :
      (st : Retry) (i : RetryInput) (selected : Text)
      → is_within queue st ≡ true
      → (pending skipped : Bool) → st.pending ≡ pending
      → (is_empty selected || text_eq selected st.current_endpoint) ≡ skipped
      → is_within queue
          (if not pending
            then (st, runs)
            else if skipped
            then (record st { pending = false }, runs)
            else check_handshake net candidate_types queue dev_up_time
                (switch_to i.nominated_ok selected i.now (record st { pending = false }))
                i).0
        ≡ true
  nominated-is_within st i selected h false skipped e1 e2 = h
  nominated-is_within st i selected h true true e1 e2 = unfold is_within in ground (arith, h, e1)
  nominated-is_within st i selected h true false e1 e2 =
      check_handshake-is_within
        (switch_to i.nominated_ok selected i.now (record st { pending = false })) i
        (switched_to i st selected h e1 e2)

  retry_round-is_within :
      (st : Retry) (i : RetryInput)
      → is_within queue st ≡ true
      → is_within queue (round st i).0 ≡ true
  retry_round-is_within st i h = by_wakeup i.wakeup refl
    where
      by_wakeup : (w : Wakeup) → i.wakeup ≡ w → is_within queue (round st i).0 ≡ true
      by_wakeup context_done e = unfold retry_round in rw e h
      by_wakeup ticked e = unfold retry_round in rw e (check_handshake-is_within st i h)
      by_wakeup (nomination_selected selected) e =
          unfold retry_round in
          rw e (
            nominated-is_within st (record i { wakeup = nomination_selected selected }) selected h
              st.pending (is_empty selected || text_eq selected st.current_endpoint) refl refl)

  abbrev unless_over : RetryEnd → Retry → Retry × RetryEnd → Retry × RetryEnd
  unless_over runs after rest = rest
  unless_over connected after rest = (after, connected)
  unless_over cancelled after rest = (after, cancelled)
  unless_over exhausted after rest = (after, exhausted)

  -- The loop, over the rounds the world gives it, as long as it runs.
  unfoldable pub retry_loop : Retry → List RetryInput → Retry × RetryEnd
  retry_loop st [] = (st, runs)
  retry_loop st (i ∷ inputs) =
      let (after, outcome) = round st i in
      let rest = retry_loop after inputs in unless_over outcome after rest

  retry_loop-is_within :
      (st : Retry) (inputs : List RetryInput)
      → is_within queue st ≡ true
      → is_within queue (retry_loop st inputs).0 ≡ true
  unfolding retry_loop
  retry_loop-is_within st [] h = h
  retry_loop-is_within st (i ∷ inputs) h =
      ends (round st i).1
        (retry_loop-is_within (round st i).0 inputs (retry_round-is_within st i h))
    where
      ends :
          (e : RetryEnd)
          → is_within queue (retry_loop (round st i).0 inputs).0 ≡ true
          → is_within queue (unless_over e (round st i).0 (retry_loop (round st i).0 inputs)).0
            ≡ true
      ends runs ih = ih
      ends connected ih = retry_round-is_within st i h
      ends cancelled ih = retry_round-is_within st i h
      ends exhausted ih = retry_round-is_within st i h

  -- Whatever the world answers, the loop switches at most once for each entry of the queue and once
  -- more for a nomination, never to an empty endpoint, and its index stays in the queue.
  pub retry_loop_bounds :
      (current : Text) (now : ℕ) (has_nomination : Bool) (inputs : List RetryInput)
      → (length (retry_loop (new_retry current now has_nomination) inputs).0.switched
          ≤ length queue + 1)
        × (contains (retry_loop (new_retry current now has_nomination) inputs).0.switched []
            ≡ false)
        × ((retry_loop (new_retry current now has_nomination) inputs).0.queue_idx ≤ length queue)
  retry_loop_bounds current now has_nomination inputs =
      let kept =
        retry_loop-is_within (new_retry current now has_nomination) inputs
          (fresh_is_within has_nomination) in
      unfold is_within in (ground (arith, kept), ground (arith, kept), ground (arith, kept))
    where
      fresh_is_within : (b : Bool) → is_within queue (new_retry current now b) ≡ true
      fresh_is_within b = unfold is_within contains in ground arith

  -- How a tick ends: as connected once a handshake is reported; without one as exhausted, when 60 s
  -- have passed since the device went up, or when the device can be read, the endpoint in use has had
  -- its time and nothing but skipped entries is left in the queue; and otherwise the loop goes on.
  pub retry_round-tick :
      (st : Retry) (i : RetryInput)
      → i.wakeup ≡ ticked
      → st.queue_idx ≤ length queue
      → (round st i).1 ≡ (
          if has_handshake i.ipc_data
          then connected
          else if leb (60 * second) (i.now - dev_up_time)
          then exhausted
          else if is_some i.ipc_data
              && (leb
                    (candidate_dwell net st.current_endpoint candidate_types)
                    (i.now - st.last_switch_time)
                  && all_skipped st.current_endpoint (drop st.queue_idx queue))
          then exhausted
          else runs)
  retry_round-tick st i e h =
      let (most, least, found, good) =
        next_endpoint_candidate_lem queue st.queue_idx st.current_endpoint h in
      elim (Option-cases i.ipc_data) [
        | inl none_read ↦ unfold retry_round check_handshake in rw (e, none_read) refl
        | inr (report, read) ↦
            unfold retry_round check_handshake after_dwell in rw (e, read) (ground (arith, found))
      ]
