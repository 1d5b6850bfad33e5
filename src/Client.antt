-- ===== src/Client.antt =====
-- main.go: the reconnect loop of `runClient` and the choice of an endpoint.
pub mod Backoff
pub mod Offered
pub mod Endpoint
use teleport_client.Base.{
  ℕ, ◌+◌, ◌*◌, Bool, true, false, not, ◌&&◌, ◌||◌, Option, none, some, List, [], ◌∷◌, ◌++◌, Text,
  codes, is_empty, is_nonempty, text_eq, contains, leb, min, if◌then◌else◌,
}
use teleport_client.Echo.{second}
use teleport_client.Net.{NetLib}
use teleport_client.Candidates.{
  Candidate, UdpSockets, candidates_of_type, compatible_candidates, build_candidate_retry_queue,
  candidate_type_map,
}
use teleport_client.Listener.{PacketLog}

-- One attempt: whether the context is done before it, its result and error, and whether the wait
-- after it comes to its end.
pub record ConnectionAttempt : Type 0 where
  pub context_done : Bool
  pub printed_config : Bool
  pub error_is_canceled : Bool
  pub tunnel_started : Bool
  pub tunnel_duration : ℕ
  pub wait_completes : Bool

pub data ClientEnd : Type 0 where
  retrying context_error printed attempt_error : ClientEnd

abbrev pub backoff_after : ℕ → ConnectionAttempt → ℕ
backoff_after backoff a = if leb (300 * second) a.tunnel_duration then 2 * second else backoff

-- The loop of `runClient` over its attempts: the waits it makes, and how it ends.
unfoldable pub run_attempts : ℕ → List ConnectionAttempt → List ℕ × ClientEnd
run_attempts backoff [] = ([], retrying)
run_attempts backoff (a ∷ attempts) =
    let wait = backoff_after backoff a in
    let (waits, outcome) = run_attempts (min (wait * 2) (30 * second)) attempts in
    if a.context_done
    then ([], context_error)
    else if a.printed_config
    then ([], printed)
    else if a.error_is_canceled
    then ([], attempt_error)
    else if not a.tunnel_started
    then ([], attempt_error)
    else if not a.wait_completes
    then (wait ∷ [], context_error)
    else (wait ∷ waits, outcome)

unfoldable pub run_client : List ConnectionAttempt → List ℕ × ClientEnd
unfolding run_attempts
run_client attempts = run_attempts (2 * second) attempts

pub data EndpointMode : Type 0 where
  override per_tuple_nomination inbound_binding_request fallback_probe : EndpointMode

abbrev pub is_inbound_request : PacketLog → Bool
is_inbound_request p = p.inbound && (p.is_stun && p.is_request)

-- The tuples that sent a Binding Request, each once, in the order of the log.
unfoldable pub observed_from : List Text → List PacketLog → List Text
observed_from seen [] = []
observed_from seen (p ∷ logs) =
    let again = observed_from seen logs in
    let first = observed_from (p.addr ∷ seen) logs in
    if not (is_inbound_request p)
    then again
    else if contains seen p.addr
    then again
    else p.addr ∷ first

-- `endpoint` and `mode` after the loop over the log.
unfoldable pub first_request : Text → EndpointMode → List PacketLog → Text × EndpointMode
first_request endpoint mode [] = (endpoint, mode)
first_request endpoint mode (p ∷ logs) =
    let rest = first_request endpoint mode logs in
    let taken = first_request p.addr inbound_binding_request logs in
    if is_inbound_request p && is_empty endpoint then taken else rest

-- What the world gives to the choice: the selection after the wait of 40 s, the log, the answer of
-- `probeCandidates`, and whether the context is done after the wait and after the probes.
pub record NominationWorld : Type 0 where
  pub selected : Text
  pub done_after_wait : Bool
  pub logs : List PacketLog
  pub probed : Text
  pub done_after_probe : Bool

unfoldable pub resolve_nominated_endpoint :
    NominationWorld → Option (Text × EndpointMode × List Text)
unfolding observed_from first_request
resolve_nominated_endpoint w =
    let queue = observed_from [] w.logs in
    let (endpoint, mode) = first_request w.selected per_tuple_nomination w.logs in
    if w.done_after_wait
    then none
    else if is_nonempty endpoint
    then some (endpoint, mode, queue)
    else if w.done_after_probe
    then none
    else some (w.probed, fallback_probe, queue)

pub record Negotiated : Type 0 where
  pub endpoint : Text
  pub mode : EndpointMode
  pub candidate_queue : List Text
  pub candidate_types : List (Text × Text)

module _ (net : NetLib) where
  abbrev pub peer_candidates_for :
      Bool → Option UdpSockets → List Candidate → List Candidate → List Candidate
  peer_candidates_for force_turn sockets peers local =
      if force_turn
      then compatible_candidates net sockets (candidates_of_type peers (codes "turn")) local
      else peers

  abbrev pub chosen_endpoint : Text → NominationWorld → Option (Text × EndpointMode × List Text)
  chosen_endpoint endpoint_override w =
      if is_nonempty endpoint_override
      then some (endpoint_override, override, [])
      else resolve_nominated_endpoint w

  abbrev pub with_queue :
      Option UdpSockets
      → List Candidate
      → List Candidate
      → Option (Text × EndpointMode × List Text)
      → Option Negotiated
  with_queue sockets peers local none = none
  with_queue sockets peers local (some (endpoint, mode, observed)) =
      if is_empty endpoint
      then none
      else some (record {
        endpoint = endpoint;
        mode = mode;
        candidate_queue =
            build_candidate_retry_queue net endpoint observed
              (compatible_candidates net sockets peers local);
        candidate_types = candidate_type_map peers;
      })

  -- `none` for an error.
  unfoldable pub negotiate_endpoint :
      Text
      → Bool
      → Option UdpSockets
      → List Candidate
      → List Candidate
      → NominationWorld
      → Option Negotiated
  unfolding resolve_nominated_endpoint compatible_candidates candidates_of_type
      build_candidate_retry_queue candidate_type_map
  negotiate_endpoint endpoint_override force_turn sockets peers local w =
      let peer_candidates = peer_candidates_for force_turn sockets peers local in
      with_queue sockets peer_candidates local (chosen_endpoint endpoint_override w)
