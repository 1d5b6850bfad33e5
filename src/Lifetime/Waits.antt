-- ===== src/Lifetime/Waits.antt =====
-- The lifetime of the client makes the waits of its attempts and ends as they do.
use teleport_client.Base.{
  ℕ, ◌*◌, ◌≡◌, refl, Bool, true, false, not, Option, List, [], ◌∷◌, ◌++◌, Text, min, if◌then◌else◌,
}
use teleport_client.Echo.{second}
use teleport_client.Net.{NetLib}
use teleport_client.Flags.{CliFlags}
use teleport_client.Ice.{IceUrl}
use teleport_client.Pairing.{SessionResult}
use teleport_client.Client.{
  ConnectionAttempt, ClientEnd, context_error, printed, attempt_error, backoff_after, run_attempts,
  run_client,
}
use teleport_client.Attempt.{AttemptEvent}
use teleport_client.Lifetime.{
  Round, Life, ended, round_end, attempt_of, attempt_result, with_access, run_rounds,
  client_lifetime, attempts_of,
}

abbrev pub outcome_of : Life → List ℕ × ClientEnd
outcome_of life = (life.waits, life.outcome)

round_end-run_attempts :
    (a : ConnectionAttempt) (backoff : ℕ) (events : List AttemptEvent) (rest : Life)
    (attempts : List ConnectionAttempt)
    → outcome_of rest ≡ run_attempts (min (backoff_after backoff a * 2) (30 * second)) attempts
    → outcome_of (round_end a (backoff_after backoff a) events rest)
      ≡ run_attempts backoff (a ∷ attempts)
unfolding run_attempts
round_end-run_attempts a backoff events rest attempts e =
    by_tests a.context_done a.printed_config a.error_is_canceled a.tunnel_started a.wait_completes
  where
    by_tests :
        (done prints canceled started waited : Bool)
        → ◌≡◌ {A = List ℕ × ClientEnd}
            (outcome_of (
              if done
              then ended [] [] context_error
              else if prints
              then ended events [] printed
              else if canceled
              then ended events [] attempt_error
              else if not started
              then ended events [] attempt_error
              else if not waited
              then ended events (backoff_after backoff a ∷ []) context_error
              else ended
                  (events ++ rest.events)
                  (backoff_after backoff a ∷ rest.waits)
                  rest.outcome))
            (if done
              then ([], context_error)
              else if prints
              then ([], printed)
              else if canceled
              then ([], attempt_error)
              else if not started
              then ([], attempt_error)
              else if not waited
              then (backoff_after backoff a ∷ [], context_error)
              else (
                backoff_after backoff a
                    ∷ (run_attempts (min (backoff_after backoff a * 2) (30 * second)) attempts).0,
                (run_attempts (min (backoff_after backoff a * 2) (30 * second)) attempts).1,
              ))
    by_tests true prints canceled started waited = refl
    by_tests false true canceled started waited = refl
    by_tests false false true started waited = refl
    by_tests false false false false waited = refl
    by_tests false false false true false = refl
    by_tests false false false true true = cc

module _ (net : NetLib) (url_parse : Text → Option IceUrl) (flags : CliFlags)
    (print_config : Bool) where
  run_rounds-run_attempts :
      (session : SessionResult) (backoff : ℕ) (rounds : List Round)
      → outcome_of (run_rounds net url_parse flags print_config session backoff rounds)
        ≡ run_attempts backoff (attempts_of net url_parse flags print_config session rounds)
  unfolding run_rounds attempts_of
  run_rounds-run_attempts session backoff [] = unfold run_attempts in refl
  run_rounds-run_attempts session backoff (x ∷ rounds) =
      let r = attempt_result net url_parse flags print_config session x in
      let a = attempt_of x r.1 in
      round_end-run_attempts a backoff r.0
        (run_rounds net url_parse flags print_config (with_access session r.2)
          (min (backoff_after backoff a * 2) (30 * second)) rounds)
        (attempts_of net url_parse flags print_config (with_access session r.2) rounds)
        (run_rounds-run_attempts (with_access session r.2)
          (min (backoff_after backoff a * 2) (30 * second)) rounds)

-- The client makes the waits, and comes to the end, that the loop of `run_client` comes to over its
-- attempts.
pub client_lifetime-run_client :
    (net : NetLib) (url_parse : Text → Option IceUrl) (flags : CliFlags) (print_config : Bool)
    (session : SessionResult) (rounds : List Round)
    → outcome_of (client_lifetime net url_parse flags print_config session rounds)
      ≡ run_client (attempts_of net url_parse flags print_config session rounds)
unfolding client_lifetime run_client
client_lifetime-run_client net url_parse flags print_config session rounds =
    run_rounds-run_attempts net url_parse flags print_config session (2 * second) rounds
