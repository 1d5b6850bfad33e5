-- ===== src/Lifetime.antt =====
-- main.go, `runClient` over the attempts of Attempt: the session that one attempt leaves is the next one's,
-- and the waits between them are those of Client.
pub mod Accounted
pub mod Deletions
pub mod Waits
use teleport_client.Base.{
  ℕ, ◌*◌, Bool, true, false, not, Option, none, some, List, [], ◌∷◌, ◌++◌, Text, min, if◌then◌else◌,
}
use teleport_client.Echo.{second}
use teleport_client.Net.{NetLib}
use teleport_client.Flags.{CliFlags}
use teleport_client.Ice.{IceUrl}
use teleport_client.Api.{ApiResponse}
use teleport_client.Pairing.{SessionResult}
use teleport_client.Client.{
  ConnectionAttempt, ClientEnd, retrying, context_error, printed, attempt_error, backoff_after,
}
use teleport_client.Attempt.{
  AttemptEvent, AttemptEnd, attempt_failed, printed_config, tunnel_ended, AttemptWorld,
  AttemptResult, run_connection_attempt,
}

-- The answers of the world to one round of the loop.
pub record Round : Type 0 where
  pub context_done : Bool
  pub world : AttemptWorld
  pub error_is_canceled : Bool
  pub tunnel_duration : ℕ
  pub wait_completes : Bool

abbrev pub is_printed : AttemptEnd → Bool
is_printed printed_config = true
is_printed _ = false

abbrev pub has_started : AttemptEnd → Bool
has_started tunnel_ended = true
has_started _ = false

-- The round as the loop sees it.
abbrev pub attempt_of : Round → AttemptEnd → ConnectionAttempt
attempt_of x outcome = record {
  context_done = x.context_done;
  printed_config = is_printed outcome;
  error_is_canceled = x.error_is_canceled;
  tunnel_started = has_started outcome;
  tunnel_duration = x.tunnel_duration;
  wait_completes = x.wait_completes;
}

pub record Life : Type 0 where
  pub events : List AttemptEvent
  pub waits : List ℕ
  pub outcome : ClientEnd

abbrev pub ended : List AttemptEvent → List ℕ → ClientEnd → Life
ended events waits outcome = record { events = events; waits = waits; outcome = outcome }

-- The end of a round: `rest` is what the rounds after it come to.
abbrev pub round_end : ConnectionAttempt → ℕ → List AttemptEvent → Life → Life
round_end a wait events rest =
    if a.context_done
    then ended [] [] context_error
    else if a.printed_config
    then ended events [] printed
    else if a.error_is_canceled
    then ended events [] attempt_error
    else if not a.tunnel_started
    then ended events [] attempt_error
    else if not a.wait_completes
    then ended events (wait ∷ []) context_error
    else ended (events ++ rest.events) (wait ∷ rest.waits) rest.outcome

abbrev pub with_access : SessionResult → Option ApiResponse → SessionResult
with_access session access = record session { access = access }

module _ (net : NetLib) (url_parse : Text → Option IceUrl) (flags : CliFlags)
    (print_config : Bool) where
  abbrev pub attempt_result : SessionResult → Round → AttemptResult
  attempt_result session x = run_connection_attempt net url_parse flags print_config session x.world

  unfoldable pub run_rounds : SessionResult → ℕ → List Round → Life
  unfolding run_connection_attempt
  run_rounds session backoff [] = ended [] [] retrying
  run_rounds session backoff (x ∷ rounds) =
      let r = attempt_result session x in
      let a = attempt_of x r.1 in
      let wait = backoff_after backoff a in
      round_end a wait r.0
        (run_rounds (with_access session r.2) (min (wait * 2) (30 * second)) rounds)

  unfoldable pub client_lifetime : SessionResult → List Round → Life
  unfolding run_rounds
  client_lifetime session rounds = run_rounds session (2 * second) rounds

  -- The rounds as attempts, each with the session that the one before has left.
  unfoldable pub attempts_of : SessionResult → List Round → List ConnectionAttempt
  attempts_of session [] = []
  attempts_of session (x ∷ rounds) =
      attempt_of x (attempt_result session x).1
      ∷ attempts_of (with_access session (attempt_result session x).2) rounds
