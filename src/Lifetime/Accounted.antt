-- ===== src/Lifetime/Accounted.antt =====
-- An attempt deletes the request for access, or leaves it to be deleted.
use teleport_client.Base.{
  ℕ, ◌+◌, ◌≡◌, refl, Bool, true, false, not, ◌&&◌, Option, none, some, List, [], ◌∷◌, ◌++◌, Text,
  codes, length, ◌==◌, if◌then◌else◌, arith,
}
use teleport_client.Net.{NetLib}
use teleport_client.Candidates.{
  Candidate, UdpSockets, candidates_of_type, compatible_candidates, addrs_of,
}
use teleport_client.Api.{ApiResponse, IceServer}
use teleport_client.Bind.{open_udp_sockets}
use teleport_client.Client.{Negotiated, negotiate_endpoint}
use teleport_client.Flags.{CliFlags}
use teleport_client.Ice.{IceUrl, validate_local_candidates, validate_turn_prerequisites}
use teleport_client.Pairing.{Outcome, failed, returned, SessionResult}
use teleport_client.Attempt.{
  AttemptEvent, sockets_opened, sockets_closed, early_started, early_stopped, request_deleted,
  config_printed, tunnel_ran, attempt_failed, printed_config, tunnel_ended, AttemptWorld,
  AttemptResult, around, delete_events, after_negotiation, negotiated, restricted, after_connect,
  after_gathering, after_opening, after_ice, run_connection_attempt,
}

abbrev pub is_deletion : AttemptEvent → ℕ
is_deletion (request_deleted id token) = 1
is_deletion _ = 0

unfoldable pub deletions : List AttemptEvent → ℕ
deletions [] = 0
deletions (event ∷ events) = is_deletion event + deletions events

-- The requests that are still to be deleted.
abbrev pub pending : Option ApiResponse → ℕ
pending none = 0
pending (some access) = 1

pub deletions-append :
    (events more : List AttemptEvent)
    → deletions (events ++ more) ≡ deletions events + deletions more
unfolding deletions
deletions-append [] more = omega arith
deletions-append (event ∷ events) more = omega (arith, deletions-append events more)

module _ (net : NetLib) (url_parse : Text → Option IceUrl) (flags : CliFlags) (print_config : Bool)
    (session : SessionResult) (w : AttemptWorld) where
  -- What was to be deleted is deleted, or still to be.
  abbrev IsAccounted : AttemptResult → Type 0
  IsAccounted (events, outcome, access) = deletions events + pending access ≡ pending session.access

  failed-IsAccounted : IsAccounted ([], attempt_failed, session.access)
  failed-IsAccounted = unfold deletions in omega arith

  around-IsAccounted :
      (before deferred : AttemptEvent) (r : AttemptResult)
      → is_deletion before ≡ 0
      → is_deletion deferred ≡ 0
      → IsAccounted r
      → IsAccounted (around before deferred r)
  unfolding deletions
  around-IsAccounted before deferred (events, outcome, access) h g e =
      omega (arith, deletions-append events (deferred ∷ []), h, g, e)

  after_negotiation-IsAccounted :
      (o : Option Negotiated)
      → IsAccounted (after_negotiation net url_parse flags print_config session w o)
  after_negotiation-IsAccounted none = failed-IsAccounted
  after_negotiation-IsAccounted (some n) = by_mode print_config session.access
    where
      by_mode :
          (prints : Bool) (access : Option ApiResponse)
          → (λ (r : AttemptResult). deletions r.0 + pending r.2 ≡ pending access)
              (if prints
                then (
                  delete_events session.device_token access ++ config_printed n.endpoint ∷ [],
                  printed_config,
                  none,
                )
                else (
                  delete_events session.device_token access ++ early_stopped ∷ tunnel_ran n ∷ [],
                  tunnel_ended,
                  none,
                ))
      by_mode true none = unfold deletions in refl
      by_mode true (some access) = unfold deletions in refl
      by_mode false none = unfold deletions in refl
      by_mode false (some access) = unfold deletions in refl

  if-IsAccounted :
      (b : Bool) (r q : AttemptResult)
      → IsAccounted r
      → IsAccounted q
      → IsAccounted (if b then r else q)
  if-IsAccounted true r q h g = h
  if-IsAccounted false r q h g = g

  negotiated-IsAccounted :
      (sockets : UdpSockets) (local : List Candidate) (resp : ApiResponse)
      → IsAccounted (negotiated net url_parse flags print_config session w sockets local resp)
  negotiated-IsAccounted sockets local resp = after_negotiation-IsAccounted (
      negotiate_endpoint net flags.endpoint_override flags.force_turn (some sockets)
        resp.server_info.peer_candidates local w.nominated)

  after_connect-IsAccounted :
      (sockets : UdpSockets) (local : List Candidate) (o : Outcome ApiResponse)
      → IsAccounted (after_connect net url_parse flags print_config session w sockets local o)
  after_connect-IsAccounted sockets local (failed err) = failed-IsAccounted
  after_connect-IsAccounted sockets local (returned resp) =
      let turn =
        compatible_candidates net (some sockets)
          (candidates_of_type resp.server_info.peer_candidates (codes "turn")) local in
      let all = negotiated net url_parse flags print_config session w sockets local resp in
      if-IsAccounted flags.force_turn
        (restricted net url_parse flags print_config session w sockets local resp turn) all
        (if-IsAccounted (length turn == 0) ([], attempt_failed, session.access)
          (around (early_started (some (addrs_of turn))) early_stopped all) failed-IsAccounted
          (around-IsAccounted (early_started (some (addrs_of turn))) early_stopped all refl refl
            (negotiated-IsAccounted sockets local resp)))
        (negotiated-IsAccounted sockets local resp)

  after_gathering-IsAccounted :
      (sockets : UdpSockets) (ice : List IceServer) (local : List Candidate)
      → IsAccounted (after_gathering net url_parse flags print_config session w sockets ice local)
  after_gathering-IsAccounted sockets ice local =
      let nothing : AttemptResult = ([], attempt_failed, session.access) in
      let all =
        after_connect net url_parse flags print_config session w sockets local
          (w.connected local ice) in
      let heard = around (early_started none) early_stopped all in
      let all_is = after_connect-IsAccounted sockets local (w.connected local ice) in
      let either = if flags.force_turn then all else heard in
      let either_is =
        if-IsAccounted flags.force_turn all heard all_is
          (around-IsAccounted (early_started none) early_stopped all refl refl all_is) in
      if-IsAccounted (not (validate_local_candidates local)) nothing
        (if flags.force_turn && not (validate_turn_prerequisites url_parse ice local)
          then nothing
          else either)
        failed-IsAccounted
        (if-IsAccounted (flags.force_turn && not (validate_turn_prerequisites url_parse ice local))
          nothing either failed-IsAccounted either_is)

  after_ice-IsAccounted :
      (o : Outcome (List IceServer))
      → IsAccounted (after_ice net url_parse flags print_config session w o)
  after_ice-IsAccounted (failed err) = failed-IsAccounted
  after_ice-IsAccounted (returned ice) = by_sockets (open_udp_sockets flags.family w.v4_ok w.v6_ok)
    where
      by_sockets :
          (o : Option UdpSockets)
          → IsAccounted (after_opening net url_parse flags print_config session w ice o)
      by_sockets none = failed-IsAccounted
      by_sockets (some sockets) =
          around-IsAccounted (sockets_opened sockets) sockets_closed
            (after_gathering net url_parse flags print_config session w sockets ice
              (w.gathered sockets ice))
            refl refl (after_gathering-IsAccounted sockets ice (w.gathered sockets ice))

  pub run_connection_attempt-IsAccounted :
      IsAccounted (run_connection_attempt net url_parse flags print_config session w)
  unfolding run_connection_attempt
  run_connection_attempt-IsAccounted =
      if-IsAccounted (not w.keypair_ok) ([], attempt_failed, session.access)
        (after_ice net url_parse flags print_config session w w.ice) failed-IsAccounted
        (after_ice-IsAccounted w.ice)
