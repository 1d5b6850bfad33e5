-- ===== src/Lifetime/Deletions.antt =====
-- Over its lifetime the client deletes its request for access at most once, and leaves nothing held.
use teleport_client.Base.{
  ℕ, ◌+◌, ◌*◌, ◌≤◌, ◌≡◌, refl, ◌∙◌, Bool, true, false, not, Option, some, List, [], ◌∷◌, ◌++◌, Text,
  if◌then◌else◌, min, arith,
}
use teleport_client.Echo.{second}
use teleport_client.Net.{NetLib}
use teleport_client.Client.{
  ConnectionAttempt, backoff_after, context_error, printed, attempt_error, ClientEnd,
}
use teleport_client.Flags.{CliFlags}
use teleport_client.Ice.{IceUrl}
use teleport_client.Pairing.{SessionResult}
use teleport_client.Attempt.{AttemptEvent}
use teleport_client.Attempt.Orderly.{run_connection_attempt_lem}
use teleport_client.Attempt.Holding.{nothing_held, hold_all, hold_all-append}
use teleport_client.Lifetime.{
  Round, Life, ended, round_end, attempt_of, attempt_result, with_access, run_rounds,
  client_lifetime,
}
use teleport_client.Client.{run_client}
use teleport_client.Lifetime.{attempts_of}
use teleport_client.Lifetime.Waits.{outcome_of, client_lifetime-run_client}
use teleport_client.Lifetime.Accounted.{
  deletions, pending, deletions-append, run_connection_attempt-IsAccounted,
}

-- A life that leaves nothing held and deletes at most `most` requests.
abbrev IsTidy : ℕ → Life → Type 0
IsTidy most life =
    (hold_all nothing_held life.events ≡ some nothing_held) × (deletions life.events ≤ most)

round_end-IsTidy :
    (a : ConnectionAttempt) (wait most : ℕ) (events : List AttemptEvent) (rest : Life)
    → hold_all nothing_held events ≡ some nothing_held
    → hold_all nothing_held rest.events ≡ some nothing_held
    → deletions events + deletions rest.events ≤ most
    → IsTidy most (round_end a wait events rest)
round_end-IsTidy a wait most events rest held rest_held few =
    by_tests a.context_done a.printed_config a.error_is_canceled a.tunnel_started a.wait_completes
  where
    one : (waits : List ℕ) (outcome : ClientEnd) → IsTidy most (ended events waits outcome)
    one waits outcome = (held, omega (arith, few))

    none_yet : IsTidy most (ended [] [] context_error)
    none_yet = unfold hold_all deletions in (refl, omega arith)

    both : IsTidy most (ended (events ++ rest.events) (wait ∷ rest.waits) rest.outcome)
    both = (
      hold_all-append nothing_held nothing_held events rest.events held ∙ rest_held,
      omega (arith, deletions-append events rest.events, few),
    )

    by_tests :
        (done prints canceled started waited : Bool)
        → IsTidy most (
            if done
            then ended [] [] context_error
            else if prints
            then ended events [] printed
            else if canceled
            then ended events [] attempt_error
            else if not started
            then ended events [] attempt_error
            else if not waited
            then ended events (wait ∷ []) context_error
            else ended (events ++ rest.events) (wait ∷ rest.waits) rest.outcome)
    by_tests true prints canceled started waited = none_yet
    by_tests false true canceled started waited = one [] printed
    by_tests false false true started waited = one [] attempt_error
    by_tests false false false false waited = one [] attempt_error
    by_tests false false false true false = one (wait ∷ []) context_error
    by_tests false false false true true = both

module _ (net : NetLib) (url_parse : Text → Option IceUrl) (flags : CliFlags)
    (print_config : Bool) where
  run_rounds-IsTidy :
      (session : SessionResult) (backoff : ℕ) (rounds : List Round)
      → IsTidy
          (pending session.access)
          (run_rounds net url_parse flags print_config session backoff rounds)
  unfolding run_rounds
  run_rounds-IsTidy session backoff [] = unfold hold_all deletions in (refl, omega arith)
  run_rounds-IsTidy session backoff (x ∷ rounds) =
      let r = attempt_result net url_parse flags print_config session x in
      let a = attempt_of x r.1 in
      let next = min (backoff_after backoff a * 2) (30 * second) in
      let (rest_held, few) = run_rounds-IsTidy (with_access session r.2) next rounds in
      let (held, kept) =
        run_connection_attempt_lem net url_parse flags print_config session x.world in
      round_end-IsTidy a (backoff_after backoff a) (pending session.access) r.0
        (run_rounds net url_parse flags print_config (with_access session r.2) next rounds) held
        rest_held
        (omega (
          arith,
          few,
          run_connection_attempt-IsAccounted net url_parse flags print_config session x.world,
        ))

-- Over all rounds of the client the sockets and the listener are used in order and nothing is held at
-- the end; its request for access is deleted at most once, and never where there is none; and its waits
-- and its end are those of the loop of `run_client` over its attempts.
pub client_lifetime_lem :
    (net : NetLib) (url_parse : Text → Option IceUrl) (flags : CliFlags) (print_config : Bool)
    (session : SessionResult) (rounds : List Round)
    → (hold_all nothing_held
          (client_lifetime net url_parse flags print_config session rounds).events
        ≡ some nothing_held)
      × (deletions (client_lifetime net url_parse flags print_config session rounds).events
          ≤ pending session.access)
      × (outcome_of (client_lifetime net url_parse flags print_config session rounds)
          ≡ run_client (attempts_of net url_parse flags print_config session rounds))
client_lifetime_lem net url_parse flags print_config session rounds =
    let (held, few) = tidy in
    (held, few, client_lifetime-run_client net url_parse flags print_config session rounds)
  where
    tidy :
        IsTidy
          (pending session.access)
          (client_lifetime net url_parse flags print_config session rounds)
    tidy =
        unfold client_lifetime in
        run_rounds-IsTidy net url_parse flags print_config session (2 * second) rounds
