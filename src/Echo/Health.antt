-- ===== src/Echo/Health.antt =====
-- When the echo health reports: the counter of consecutive failures over any run of probes.
use teleport_client.Base.{
  ℕ, ◌+◌, ◌%◌, ◌≡◌, refl, Bool, true, false, not, none, some, List, [], ◌∷◌, arith, ◌==◌,
  if◌then◌else◌, Bool-cases, inl, inr,
}
use teleport_client.Echo.{
  UdpEchoHealth, healthy, startup_failed, unhealthy, observe_health, max_consecutive_echo_failures,
}

abbrev pub fresh : UdpEchoHealth
fresh = record { ready = false; consecutive_failures = 0 }

pub run : UdpEchoHealth → List Bool → UdpEchoHealth
run h [] = h
run h (m ∷ ms) = run (observe_health h m).0 ms

-- The failures since the last success, counting from `n`.
abbrev pub trailing_failures : ℕ → List Bool → ℕ
trailing_failures n [] = n
trailing_failures n (m ∷ ms) = trailing_failures (if m then 0 else n + 1) ms

abbrev pub any_success : Bool → List Bool → Bool
any_success b [] = b
any_success b (m ∷ ms) = any_success (if m then true else b) ms

run_counts :
    (h : UdpEchoHealth) (n : ℕ) (ms : List Bool)
    → h.ready ≡ true
    → h.consecutive_failures ≡ n % 12
    → ((run h ms).ready ≡ true) × ((run h ms).consecutive_failures ≡ trailing_failures n ms % 12)
unfolding run
run_counts h n [] r e = (r, e)
run_counts h n (true ∷ ms) r e =
    run_counts (observe_health h true).0 0 ms (unfold observe_health in refl)
      (unfold observe_health in refl)
run_counts h n (false ∷ ms) r e =
    run_counts (observe_health h false).0 (n + 1) ms (unfold observe_health in ground arith)
      (unfold observe_health in ground arith)

run_unready : (ms : List Bool) → any_success false ms ≡ false → run fresh ms ≡ fresh
unfolding run observe_health
run_unready [] h = refl
run_unready (true ∷ ms) h = absurd (always ms h)
  where
    always : (l : List Bool) → any_success true l ≡ false → ⊥
    always [] e = cc
    always (true ∷ l) e = always l e
    always (false ∷ l) e = always l e
run_unready (false ∷ ms) h = run_unready ms h

run_ready :
    (n : ℕ) (ms : List Bool)
    → any_success false ms ≡ true
    → ((run fresh ms).ready ≡ true)
      × ((run fresh ms).consecutive_failures ≡ trailing_failures n ms % 12)
unfolding run observe_health
run_ready n [] h = cc
run_ready n (true ∷ ms) h =
    run_counts (record { ready = true; consecutive_failures = 0 }) 0 ms refl refl
run_ready n (false ∷ ms) h = run_ready (n + 1) ms h

-- After any probes, the next one reports: a success is healthy, and the first one is told apart; a
-- failure with no success before it means that startup failed; later, every twelfth failure in a
-- row means that the tunnel is unhealthy, and any other failure says nothing.
pub observe_after_run :
    (ms : List Bool) (matched : Bool)
    → let h = run fresh ms in
      ((observe_health h matched).1 ≡ (
        if matched
        then some healthy
        else if any_success false ms
        then (if (trailing_failures 0 ms + 1) % max_consecutive_echo_failures == 0
            then some unhealthy
            else none)
        else some startup_failed))
      × ((observe_health h matched).2 ≡ (if matched then not (any_success false ms) else false))
unfolding observe_health
observe_after_run ms matched = elim (Bool-cases (any_success false ms)) [
  | inl e ↦ ground (arith, run_ready 0 ms e)
  | inr e ↦ ground (arith, run_unready ms e)
]
