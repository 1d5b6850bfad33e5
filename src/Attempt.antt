-- ===== src/Attempt.antt =====
-- main.go, `runConnectionAttempt`: the order of its steps, with what each error skips and what the
-- deferred calls undo. The answers of the cloud, of the system and of the tunnel are arguments, and what
-- the attempt does to its sockets, its listener and the cloud's request is a list of events.
pub mod Holding
pub mod Orderly
use teleport_client.Base.{
  ℕ, Bool, true, false, not, ◌&&◌, ◌||◌, Option, none, some, List, [], ◌∷◌, ◌++◌, Text, codes,
  length, ◌==◌, if◌then◌else◌,
}
use teleport_client.Net.{NetLib}
use teleport_client.Candidates.{
  Candidate, UdpSockets, NetworkFamily, candidates_of_type, compatible_candidates, addrs_of,
}
use teleport_client.Api.{ApiResponse, IceServer}
use teleport_client.Bind.{open_udp_sockets}
use teleport_client.Client.{NominationWorld, Negotiated, negotiate_endpoint}
use teleport_client.Flags.{CliFlags}
use teleport_client.Ice.{IceUrl, validate_local_candidates, validate_turn_prerequisites}
use teleport_client.Pairing.{Outcome, failed, returned, SessionResult}

-- `early_started` has the tuples that the listener is restricted to, if it is.
pub data AttemptEvent : Type 0 where
  sockets_opened : UdpSockets → AttemptEvent
  sockets_closed : AttemptEvent
  early_started : Option (List Text) → AttemptEvent
  early_stopped : AttemptEvent
  request_deleted : Text → Text → AttemptEvent
  config_printed : Text → AttemptEvent
  tunnel_ran : Negotiated → AttemptEvent

pub data AttemptEnd : Type 0 where
  attempt_failed printed_config tunnel_ended : AttemptEnd

pub record AttemptWorld : Type 0 where
  pub keypair_ok : Bool
  pub ice : Outcome (List IceServer)
  pub v4_ok : Bool
  pub v6_ok : Bool
  pub gathered : UdpSockets → List IceServer → List Candidate
  pub connected : List Candidate → List IceServer → Outcome ApiResponse
  pub nominated : NominationWorld

-- The events, the end, and the request for access that is still to be deleted.
abbrev pub AttemptResult : Type 0
AttemptResult = List AttemptEvent × AttemptEnd × Option ApiResponse

-- Events before the others, and a deferred call after them.
abbrev pub around : AttemptEvent → AttemptEvent → AttemptResult → AttemptResult
around before deferred (events, outcome, access) =
    (before ∷ (events ++ deferred ∷ []), outcome, access)

abbrev pub delete_events : Text → Option ApiResponse → List AttemptEvent
delete_events device_token none = []
delete_events device_token (some access) =
    request_deleted access.teleport_request_id device_token ∷ []

module _ (net : NetLib) (url_parse : Text → Option IceUrl) (flags : CliFlags) (print_config : Bool)
    (session : SessionResult) (w : AttemptWorld) where
  abbrev pub after_negotiation : Option Negotiated → AttemptResult
  after_negotiation none = ([], attempt_failed, session.access)
  after_negotiation (some n) =
      if print_config
      then (
        delete_events session.device_token session.access ++ config_printed n.endpoint ∷ [],
        printed_config,
        none,
      )
      else (
        delete_events session.device_token session.access ++ early_stopped ∷ tunnel_ran n ∷ [],
        tunnel_ended,
        none,
      )

  abbrev pub negotiated : UdpSockets → List Candidate → ApiResponse → AttemptResult
  negotiated sockets local resp = after_negotiation (
      negotiate_endpoint net flags.endpoint_override flags.force_turn (some sockets)
        resp.server_info.peer_candidates local w.nominated)

  abbrev pub restricted : UdpSockets → List Candidate → ApiResponse → List Candidate → AttemptResult
  restricted sockets local resp turn =
      if length turn == 0
      then ([], attempt_failed, session.access)
      else around (early_started (some (addrs_of turn))) early_stopped
          (negotiated sockets local resp)

  abbrev pub after_connect : UdpSockets → List Candidate → Outcome ApiResponse → AttemptResult
  after_connect sockets local (failed err) = ([], attempt_failed, session.access)
  after_connect sockets local (returned resp) =
      if flags.force_turn
      then restricted sockets local resp (
          compatible_candidates net (some sockets)
            (candidates_of_type resp.server_info.peer_candidates (codes "turn")) local)
      else negotiated sockets local resp

  -- Without `--turn` the listener runs while the client connects.
  abbrev pub after_gathering : UdpSockets → List IceServer → List Candidate → AttemptResult
  after_gathering sockets ice local =
      if not (validate_local_candidates local)
      then ([], attempt_failed, session.access)
      else if flags.force_turn && not (validate_turn_prerequisites url_parse ice local)
      then ([], attempt_failed, session.access)
      else if flags.force_turn
      then after_connect sockets local (w.connected local ice)
      else around (early_started none) early_stopped
          (after_connect sockets local (w.connected local ice))

  abbrev pub after_opening : List IceServer → Option UdpSockets → AttemptResult
  after_opening ice none = ([], attempt_failed, session.access)
  after_opening ice (some sockets) =
      around (sockets_opened sockets) sockets_closed
        (after_gathering sockets ice (w.gathered sockets ice))

  abbrev pub after_ice : Outcome (List IceServer) → AttemptResult
  after_ice (failed err) = ([], attempt_failed, session.access)
  after_ice (returned ice) = after_opening ice (open_udp_sockets flags.family w.v4_ok w.v6_ok)

  unfoldable pub run_connection_attempt : AttemptResult
  unfolding open_udp_sockets negotiate_endpoint compatible_candidates candidates_of_type
      validate_local_candidates validate_turn_prerequisites
  run_connection_attempt =
      if not w.keypair_ok then ([], attempt_failed, session.access) else after_ice w.ice
