-- ===== src/Tunnel/Supervisor.antt =====
-- tunnel.go: the loop of `runTunnel` that supervises the tunnel and starts and stops the recovery.
use teleport_client.Base.{
  ℕ, ◌≡◌, Bool-cases, inl, inr, refl, ◌∙◌, Bool, true, false, not, ◌&&◌, List, [], ◌∷◌, ◌++◌, Text,
  if◌then◌else◌, arith,
}
use teleport_client.Echo.{UdpEchoHealthEvent, healthy, startup_failed, unhealthy}
use teleport_client.Tunnel.Stats.{WireGuardPeerStats, wire_guard_path_active_since}

-- The variables of the loop; `recovering` says that `recoveryCancel` is set.
pub record Supervisor : Type 0 where
  pub baseline : WireGuardPeerStats
  pub recovering : Bool

-- What the `select` of a round receives; a health event with the statistics and the time read for it.
pub data SupervisorInput : Type 0 where
  lifecycle_done echo_stopped renegotiate : SupervisorInput
  health_event : UdpEchoHealthEvent → WireGuardPeerStats → ℕ → SupervisorInput

-- `startWireGuardEndpointRecovery` from an endpoint, and `recoveryCancel()`.
pub data RecoveryCall : Type 0 where
  start : Text → RecoveryCall
  cancel : RecoveryCall

-- Why `runTunnel` returns.
pub data TunnelEnd : Type 0 where
  supervising context_error echo_error renegotiation_required : TunnelEnd

abbrev pub cancel_if : Bool → List RecoveryCall
cancel_if b = if b then cancel ∷ [] else []

pub record Supervised : Type 0 where
  pub after : Supervisor
  pub calls : List RecoveryCall
  pub outcome : TunnelEnd

unfoldable pub on_health : Supervisor → UdpEchoHealthEvent → WireGuardPeerStats → ℕ → Supervised
on_health s healthy current now = record {
  after = record { baseline = current; recovering = false };
  calls = cancel_if s.recovering;
  outcome = supervising;
}
on_health s startup_failed current now = record {
  after = s;
  calls = [];
  outcome = renegotiation_required;
}
on_health s unhealthy current now =
    if wire_guard_path_active_since s.baseline current now
    then record { after = record s { baseline = current }; calls = []; outcome = supervising }
    else record {
      after = record s { recovering = true };
      calls = if s.recovering then [] else start current.endpoint ∷ [];
      outcome = supervising;
    }

-- The body of the loop, up to a return.
unfoldable pub on_input : Supervisor → SupervisorInput → Supervised
unfolding on_health
on_input s lifecycle_done = record { after = s; calls = []; outcome = context_error }
on_input s echo_stopped = record { after = s; calls = cancel_if s.recovering; outcome = echo_error }
on_input s renegotiate = record {
  after = s;
  calls = cancel_if s.recovering;
  outcome = renegotiation_required;
}
on_input s (health_event event current now) = on_health s event current now

-- The deferred call at a return.
unfoldable pub at_return : Supervised → Supervised
at_return r = elim r.outcome [
  | supervising ↦ r
  | _ ↦ record r { calls = r.calls ++ cancel_if r.after.recovering }
]

unfoldable pub supervise_step : Supervisor → SupervisorInput → Supervised
unfolding on_input at_return
supervise_step s i = at_return (on_input s i)

abbrev continue_with :
    TunnelEnd → List RecoveryCall → List RecoveryCall × TunnelEnd → List RecoveryCall × TunnelEnd
continue_with supervising calls (more, outcome) = (calls ++ more, outcome)
continue_with context_error calls rest = (calls, context_error)
continue_with echo_error calls rest = (calls, echo_error)
continue_with renegotiation_required calls rest = (calls, renegotiation_required)

-- The loop over the inputs it gets: the calls it makes, and how it ends.
unfoldable pub supervise : Supervisor → List SupervisorInput → List RecoveryCall × TunnelEnd
unfolding supervise_step
supervise s [] = ([], supervising)
supervise s (i ∷ inputs) =
    let r = supervise_step s i in
    let rest = supervise r.after inputs in continue_with r.outcome r.calls rest

-- Whether a recovery's context is live after the calls, and whether none was started while one was.
unfoldable pub live_after : Bool → List RecoveryCall → Bool
live_after live [] = live
live_after live (start e ∷ calls) = live_after true calls
live_after live (cancel ∷ calls) = live_after false calls

unfoldable pub one_at_a_time : Bool → List RecoveryCall → Bool
one_at_a_time live [] = true
one_at_a_time live (start e ∷ calls) = not live && one_at_a_time true calls
one_at_a_time live (cancel ∷ calls) = one_at_a_time false calls

abbrev pub is_over : TunnelEnd → Bool
is_over supervising = false
is_over _ = true

live_after-append :
    (live : Bool) (xs ys : List RecoveryCall)
    → live_after live (xs ++ ys) ≡ live_after (live_after live xs) ys
unfolding live_after
live_after-append live [] ys = refl
live_after-append live (start e ∷ xs) ys = live_after-append true xs ys
live_after-append live (cancel ∷ xs) ys = live_after-append false xs ys

one_at_a_time-append :
    (live : Bool) (xs ys : List RecoveryCall)
    → one_at_a_time live (xs ++ ys)
      ≡ (one_at_a_time live xs && one_at_a_time (live_after live xs) ys)
unfolding live_after one_at_a_time
one_at_a_time-append live [] ys = refl
one_at_a_time-append live (start e ∷ xs) ys = ground (arith, one_at_a_time-append true xs ys)
one_at_a_time-append live (cancel ∷ xs) ys = one_at_a_time-append false xs ys

-- A round's calls keep to one recovery, and leave one live just when the variable says so.
supervise_step-live :
    (s : Supervisor) (i : SupervisorInput)
    → (one_at_a_time s.recovering (supervise_step s i).calls ≡ true)
      × (live_after s.recovering (supervise_step s i).calls
          ≡ (not (is_over (supervise_step s i).outcome) && (supervise_step s i).after.recovering))
unfolding supervise_step on_input at_return on_health live_after one_at_a_time
supervise_step-live s lifecycle_done = (ground arith, ground arith)
supervise_step-live s echo_stopped = (ground arith, ground arith)
supervise_step-live s renegotiate = (ground arith, ground arith)
supervise_step-live s (health_event healthy current now) = (ground arith, ground arith)
supervise_step-live s (health_event startup_failed current now) = (ground arith, ground arith)
supervise_step-live s (health_event unhealthy current now) =
    elim (Bool-cases (wire_guard_path_active_since s.baseline current now)) [
      | inl e ↦ rw e (refl, refl)
      | inr e ↦ rw e (by_recovering s.recovering)
    ]
  where
    by_recovering :
        (b : Bool)
        → (one_at_a_time b (if b then [] else start current.endpoint ∷ []) ≡ true)
          × (live_after b (if b then [] else start current.endpoint ∷ []) ≡ true)
    by_recovering true = (refl, refl)
    by_recovering false = (refl, refl)

-- At any time at most one recovery is live, and when the loop returns none is.
pub supervise_recoveries :
    (s : Supervisor) (inputs : List SupervisorInput)
    → (one_at_a_time s.recovering (supervise s inputs).0 ≡ true)
      × ((is_over (supervise s inputs).1 && live_after s.recovering (supervise s inputs).0) ≡ false)
unfolding supervise one_at_a_time live_after
supervise_recoveries s [] = (refl, refl)
supervise_recoveries s (i ∷ inputs) =
    let (one, live) = supervise_step-live s i in
    let (ones, over) = supervise_recoveries (supervise_step s i).after inputs in
    by_outcome (supervise_step s i).outcome one live ones over
  where
    calls : List RecoveryCall
    calls = (supervise_step s i).calls

    rest : List RecoveryCall × TunnelEnd
    rest = supervise (supervise_step s i).after inputs

    by_outcome :
        (e : TunnelEnd)
        → one_at_a_time s.recovering calls ≡ true
        → live_after s.recovering calls ≡ (not (is_over e) && (supervise_step s i).after.recovering)
        → one_at_a_time (supervise_step s i).after.recovering rest.0 ≡ true
        → (is_over rest.1 && live_after (supervise_step s i).after.recovering rest.0) ≡ false
        → (one_at_a_time s.recovering (continue_with e calls rest).0 ≡ true)
          × ((is_over (continue_with e calls rest).1
                && live_after s.recovering (continue_with e calls rest).0)
              ≡ false)
    by_outcome supervising one live ones over = (
      one_at_a_time-append s.recovering calls rest.0 ∙ rw (one, live) ones,
      rw (live_after-append s.recovering calls rest.0, live) over,
    )
    by_outcome context_error one live ones over = (one, live)
    by_outcome echo_error one live ones over = (one, live)
    by_outcome renegotiation_required one live ones over = (one, live)
