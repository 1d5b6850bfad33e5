-- ===== src/Attempt/Orderly.antt =====
-- An attempt leaves no socket open and no listener running, and the tunnel has the sockets for itself.
use teleport_client.Base.{
  ◌≡◌, refl, Bool, true, false, not, ◌&&◌, Option, none, some, List, [], ◌∷◌, ◌++◌, Text, codes,
  length, ◌==◌, if◌then◌else◌,
}
use teleport_client.Net.{NetLib}
use teleport_client.Candidates.{
  Candidate, UdpSockets, candidates_of_type, compatible_candidates, addrs_of,
}
use teleport_client.Api.{ApiResponse, IceServer}
use teleport_client.Bind.{open_udp_sockets}
use teleport_client.Client.{Negotiated, negotiate_endpoint}
use teleport_client.Flags.{CliFlags}
use teleport_client.Ice.{IceUrl, validate_local_candidates, validate_turn_prerequisites}
use teleport_client.Pairing.{Outcome, failed, returned, SessionResult}
use teleport_client.Attempt.{
  sockets_opened, sockets_closed, early_started, early_stopped, config_printed, tunnel_ran,
  AttemptEnd, attempt_failed, printed_config, tunnel_ended, AttemptWorld, AttemptResult, around,
  delete_events, after_negotiation, negotiated, restricted, after_connect, after_gathering,
  after_opening, after_ice, run_connection_attempt,
}
use teleport_client.Attempt.Holding.{
  Held, nothing_held, sockets_held, listener_held, hold_all, hold_all-append,
}

abbrev pub is_failed : AttemptEnd → Bool
is_failed attempt_failed = true
is_failed _ = false

-- The sockets are still open, and the listener may run.
abbrev is_open : Option Held → Bool
is_open (some sockets_held) = true
is_open (some listener_held) = true
is_open _ = false

module _ (net : NetLib) (url_parse : Text → Option IceUrl) (flags : CliFlags) (print_config : Bool)
    (session : SessionResult) (w : AttemptWorld) where
  -- The request for access is forgotten when an attempt gets an endpoint.
  abbrev IsAccessKept : AttemptResult → Type 0
  IsAccessKept (events, outcome, access) =
      access ≡ (if is_failed outcome then session.access else none)

  -- From what is held, the events leave the sockets open.
  abbrev IsSettled : Held → AttemptResult → Type 0
  IsSettled held r = (is_open (hold_all held r.0) ≡ true) × IsAccessKept r

  abbrev IsBack : Held → AttemptResult → Type 0
  IsBack held r = (hold_all held r.0 ≡ some held) × IsAccessKept r

  around-IsBack :
      (allowed : Option (List Text)) (r : AttemptResult)
      → IsSettled listener_held r
      → IsBack sockets_held (around (early_started allowed) early_stopped r)
  unfolding hold_all
  around-IsBack allowed (events, outcome, access) (settled, kept) =
      (by_held (hold_all listener_held events) refl settled, kept)
    where
      by_held :
          (o : Option Held)
          → hold_all listener_held events ≡ o
          → is_open o ≡ true
          → hold_all listener_held (events ++ early_stopped ∷ []) ≡ some sockets_held
      by_held none e h = cc
      by_held (some nothing_held) e h = cc
      by_held (some sockets_held) e h =
          hold_all-append listener_held sockets_held events (early_stopped ∷ []) e
      by_held (some listener_held) e h =
          hold_all-append listener_held listener_held events (early_stopped ∷ []) e

  opened-IsBack :
      (sockets : UdpSockets) (r : AttemptResult)
      → IsBack sockets_held r
      → IsBack nothing_held (around (sockets_opened sockets) sockets_closed r)
  unfolding hold_all
  opened-IsBack sockets (events, outcome, access) (back, kept) =
      (hold_all-append sockets_held sockets_held events (sockets_closed ∷ []) back, kept)

  after_negotiation-IsSettled :
      (o : Option Negotiated)
      → IsSettled listener_held (after_negotiation net url_parse flags print_config session w o)
  unfolding hold_all
  after_negotiation-IsSettled none = (refl, refl)
  after_negotiation-IsSettled (some n) = by_mode print_config session.access
    where
      by_mode :
          (prints : Bool) (access : Option ApiResponse)
          → IsSettled listener_held (
              if prints
              then (
                delete_events session.device_token access ++ config_printed n.endpoint ∷ [],
                printed_config,
                none,
              )
              else (
                delete_events session.device_token access ++ early_stopped ∷ tunnel_ran n ∷ [],
                tunnel_ended,
                none,
              ))
      by_mode true none = (refl, refl)
      by_mode true (some access) = (refl, refl)
      by_mode false none = (refl, refl)
      by_mode false (some access) = (refl, refl)

  restricted-IsBack :
      (sockets : UdpSockets) (local : List Candidate) (resp : ApiResponse) (turn : List Candidate)
      → IsBack sockets_held
          (restricted net url_parse flags print_config session w sockets local resp turn)
  restricted-IsBack sockets local resp [] = unfold hold_all in (refl, refl)
  restricted-IsBack sockets local resp (c ∷ turn) = by_length (length (c ∷ turn) == 0)
    where
      by_length :
          (is_none : Bool)
          → IsBack sockets_held (
              if is_none
              then ([], attempt_failed, session.access)
              else around
                  (early_started (some (addrs_of (c ∷ turn))))
                  early_stopped
                  (negotiated net url_parse flags print_config session w sockets local resp))
      by_length true = unfold hold_all in (refl, refl)
      by_length false =
          around-IsBack (some (addrs_of (c ∷ turn)))
            (negotiated net url_parse flags print_config session w sockets local resp)
            (after_negotiation-IsSettled (
              negotiate_endpoint net flags.endpoint_override flags.force_turn (some sockets)
                resp.server_info.peer_candidates local w.nominated))

  after_connect-IsSettled :
      (sockets : UdpSockets) (local : List Candidate) (o : Outcome ApiResponse)
      → flags.force_turn ≡ false
      → IsSettled listener_held
          (after_connect net url_parse flags print_config session w sockets local o)
  after_connect-IsSettled sockets local (failed err) h = unfold hold_all in (refl, refl)
  after_connect-IsSettled sockets local (returned resp) h = by_flag flags.force_turn h
    where
      by_flag :
          (turn : Bool)
          → turn ≡ false
          → IsSettled listener_held (
              if turn
              then restricted net url_parse flags print_config session w sockets local resp (
                  compatible_candidates net
                    (some sockets)
                    (candidates_of_type resp.server_info.peer_candidates (codes "turn"))
                    local)
              else negotiated net url_parse flags print_config session w sockets local resp)
      by_flag true h = (cc, cc)
      by_flag false h = after_negotiation-IsSettled (
          negotiate_endpoint net flags.endpoint_override flags.force_turn (some sockets)
            resp.server_info.peer_candidates local w.nominated)

  after_connect-IsBack :
      (sockets : UdpSockets) (local : List Candidate) (o : Outcome ApiResponse)
      → flags.force_turn ≡ true
      → IsBack sockets_held
          (after_connect net url_parse flags print_config session w sockets local o)
  after_connect-IsBack sockets local (failed err) h = unfold hold_all in (refl, refl)
  after_connect-IsBack sockets local (returned resp) h = by_flag flags.force_turn h
    where
      by_flag :
          (turn : Bool)
          → turn ≡ true
          → IsBack sockets_held (
              if turn
              then restricted net url_parse flags print_config session w sockets local resp (
                  compatible_candidates net
                    (some sockets)
                    (candidates_of_type resp.server_info.peer_candidates (codes "turn"))
                    local)
              else negotiated net url_parse flags print_config session w sockets local resp)
      by_flag false h = (cc, cc)
      by_flag true h = restricted-IsBack sockets local resp (
          compatible_candidates net (some sockets)
            (candidates_of_type resp.server_info.peer_candidates (codes "turn")) local)

  after_gathering-IsBack :
      (sockets : UdpSockets) (ice : List IceServer) (local : List Candidate)
      → IsBack sockets_held
          (after_gathering net url_parse flags print_config session w sockets ice local)
  after_gathering-IsBack sockets ice local =
      by_tests (validate_local_candidates local) (validate_turn_prerequisites url_parse ice local)
        flags.force_turn refl
    where
      by_tests :
          (has_local has_turn turn : Bool)
          → flags.force_turn ≡ turn
          → IsBack sockets_held (
              if not has_local
              then ([], attempt_failed, session.access)
              else if turn && not has_turn
              then ([], attempt_failed, session.access)
              else if turn
              then after_connect net url_parse flags print_config session w sockets local
                  (w.connected local ice)
              else around (early_started none) early_stopped (
                  after_connect net url_parse flags print_config session w sockets local
                    (w.connected local ice)))
      by_tests false has_turn turn h = unfold hold_all in (refl, refl)
      by_tests true false true h = unfold hold_all in (refl, refl)
      by_tests true true true h = after_connect-IsBack sockets local (w.connected local ice) h
      by_tests true has_turn false h =
          around-IsBack none
            (after_connect net url_parse flags print_config session w sockets local
              (w.connected local ice))
            (after_connect-IsSettled sockets local (w.connected local ice) h)

  after_ice-IsBack :
      (o : Outcome (List IceServer))
      → IsBack nothing_held (after_ice net url_parse flags print_config session w o)
  after_ice-IsBack (failed err) = unfold hold_all in (refl, refl)
  after_ice-IsBack (returned ice) = by_sockets (open_udp_sockets flags.family w.v4_ok w.v6_ok)
    where
      by_sockets :
          (o : Option UdpSockets)
          → IsBack nothing_held (after_opening net url_parse flags print_config session w ice o)
      by_sockets none = unfold hold_all in (refl, refl)
      by_sockets (some sockets) =
          opened-IsBack sockets
            (after_gathering net url_parse flags print_config session w sockets ice
              (w.gathered sockets ice))
            (after_gathering-IsBack sockets ice (w.gathered sockets ice))

-- On every path of an attempt the listener runs only over open sockets and has stopped before the
-- tunnel runs and before they are closed, a listener never runs twice at once, and nothing is held at
-- the end; and the request for access is forgotten exactly when the attempt has not failed.
pub run_connection_attempt_lem :
    (net : NetLib) (url_parse : Text → Option IceUrl) (flags : CliFlags) (print_config : Bool)
    (session : SessionResult) (w : AttemptWorld)
    → (hold_all nothing_held (run_connection_attempt net url_parse flags print_config session w).0
        ≡ some nothing_held)
      × ((run_connection_attempt net url_parse flags print_config session w).2 ≡ (
          if is_failed (run_connection_attempt net url_parse flags print_config session w).1
          then session.access
          else none))
unfolding run_connection_attempt
run_connection_attempt_lem net url_parse flags print_config session w = by_keypair w.keypair_ok
  where
    by_keypair :
        (ok : Bool)
        → IsBack net url_parse flags print_config session w nothing_held (
            if not ok
            then ([], attempt_failed, session.access)
            else after_ice net url_parse flags print_config session w w.ice)
    by_keypair false = unfold hold_all in (refl, refl)
    by_keypair true = after_ice-IsBack net url_parse flags print_config session w w.ice
