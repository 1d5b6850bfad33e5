-- ===== src/Tunnel/Retry.antt =====
-- tunnel.go: `retryEndpointOnHandshakeTimeout`: the switch to the next candidate when the endpoint in
-- use completes no handshake. The map `candidateTypes` and the readers of addresses are parameters.
use teleport_client.Base.{
  ℕ, ◌+◌, ◌-◌, ◌*◌, Bool, true, false, not, ◌||◌, Option, none, some, is_some, List, [], ◌∷◌, Text,
  codes, is_empty, text_eq, drop, lookup, leb, if◌then◌else◌,
}
use teleport_client.Echo.{second}
use teleport_client.Net.{NetLib}
use teleport_client.Candidates.{is_publicly_routable_candidate_addr}
use teleport_client.Tunnel.Stats.{parse_wire_guard_peer_stats}

abbrev pub candidate_retry_max_duration : ℕ
candidate_retry_max_duration = 60 * second

abbrev pub is_turn : Option Text → Bool
is_turn none = false
is_turn (some type) = text_eq type (codes "turn")

unfoldable pub candidate_dwell : NetLib → Text → List (Text × Text) → ℕ
unfolding is_publicly_routable_candidate_addr
candidate_dwell net addr candidate_types =
    if is_turn (lookup addr candidate_types)
    then 25 * second
    else if is_publicly_routable_candidate_addr net addr
    then 6 * second
    else 3 * second

-- `nextEndpointCandidate` from the entries that are left; `start` is the index of the first of them.
unfoldable pub next_candidate_from : List Text → ℕ → Text → Text × ℕ × Bool
next_candidate_from [] start current = ([], start, false)
next_candidate_from (candidate ∷ queue) start current =
    let rest = next_candidate_from queue (start + 1) current in
    if is_empty candidate || text_eq candidate current then rest else (candidate, start + 1, true)

unfoldable pub next_endpoint_candidate : List Text → ℕ → Text → Text × ℕ × Bool
unfolding next_candidate_from
next_endpoint_candidate queue start current = next_candidate_from (drop start queue) start current

-- The variables of the loop. `pending` says that `nominationSelected` has not been read yet, and
-- `switched` lists the endpoints the device has been switched to, the last one first.
pub record Retry : Type 0 where
  pub queue_idx : ℕ
  pub current_endpoint : Text
  pub last_switch_time : ℕ
  pub pending : Bool
  pub switched : List Text

pub data Wakeup : Type 0 where
  context_done : Wakeup
  nomination_selected : Text → Wakeup
  ticked : Wakeup

-- What the world answers in one round: what wakes the loop, the report of the device (`none` for an
-- error), the time, which is read anew at each use but taken as one, and whether each of the two switches is taken.
pub record RetryInput : Type 0 where
  pub wakeup : Wakeup
  pub ipc_data : Option Text
  pub now : ℕ
  pub nominated_ok : Bool
  pub next_ok : Bool

pub data RetryEnd : Type 0 where
  runs cancelled connected exhausted : RetryEnd

unfoldable pub switch_to : Bool → Text → ℕ → Retry → Retry
switch_to ok endpoint now st =
    if ok
    then record st {
      current_endpoint = endpoint;
      last_switch_time = now;
      switched = endpoint ∷ st.switched;
    }
    else st

module _ (net : NetLib) (candidate_types : List (Text × Text)) (queue : List Text)
    (dev_up_time : ℕ) where
  abbrev pub timed_out : ℕ → Bool
  timed_out now = leb candidate_retry_max_duration (now - dev_up_time)

  -- The next candidate, when the endpoint in use has had its time.
  unfoldable pub after_dwell : Retry → RetryInput → Retry × RetryEnd
  unfolding switch_to next_endpoint_candidate
  after_dwell st i =
      let (candidate, next, ok) = next_endpoint_candidate queue st.queue_idx st.current_endpoint in
      let moved = record st { queue_idx = next } in
      if ok then (switch_to i.next_ok candidate i.now moved, runs) else (moved, exhausted)

  -- The part of a round after the `select`.
  unfoldable pub check_handshake : Retry → RetryInput → Retry × RetryEnd
  unfolding after_dwell candidate_dwell
  check_handshake st i = elim i.ipc_data [
    | none ↦ (st, if timed_out i.now then exhausted else runs)
    | some ipc_data ↦
        if is_some (parse_wire_guard_peer_stats ipc_data).last_handshake
        then (st, connected)
        else if timed_out i.now
        then (st, exhausted)
        else if leb (candidate_dwell net st.current_endpoint candidate_types)
            (i.now - st.last_switch_time)
        then after_dwell st i
        else (st, runs)
  ]

  -- One round of the loop. A channel that is nil, or that has been read and set to nil, wakes nothing.
  unfoldable pub retry_round : Retry → RetryInput → Retry × RetryEnd
  unfolding check_handshake switch_to
  retry_round st i = elim i.wakeup [
    | context_done ↦ (st, cancelled)
    | nomination_selected selected ↦
        let read = record st { pending = false } in
        if not st.pending
        then (st, runs)
        else if is_empty selected || text_eq selected st.current_endpoint
        then (read, runs)
        else check_handshake (switch_to i.nominated_ok selected i.now read) i
    | ticked ↦ check_handshake st i
  ]
