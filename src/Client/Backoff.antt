-- ===== src/Client/Backoff.antt =====
-- The waits between the attempts of `runClient`.
use teleport_client.Base.{
  ℕ, ◌*◌, ◌≤◌, ◌≡◌, refl, Bool, true, ◌&&◌, List, [], ◌∷◌, length, leb, min, arith,
}
use teleport_client.Echo.{second}
use teleport_client.Client.{ConnectionAttempt, run_attempts, run_client, backoff_after}

unfoldable pub in_range : List ℕ → Bool
in_range [] = true
in_range (w ∷ ws) = (leb (2 * second) w && leb w (30 * second)) && in_range ws

-- The first wait is at most `bound`, and each other at most twice the one before it.
unfoldable pub no_faster : ℕ → List ℕ → Bool
no_faster bound [] = true
no_faster bound (w ∷ ws) = leb w bound && no_faster (w * 2) ws

backoff_after_bounds :
    (backoff : ℕ) (a : ConnectionAttempt)
    → 2 * second ≤ backoff
    → backoff ≤ 30 * second
    → (2 * second ≤ backoff_after backoff a) × (backoff_after backoff a ≤ backoff)
backoff_after_bounds backoff a h1 h2 = (ground (arith, h1), ground (arith, h1))

no_faster_more : (b c : ℕ) (ws : List ℕ) → b ≤ c → no_faster b ws ≡ true → no_faster c ws ≡ true
unfolding no_faster
no_faster_more b c [] h e = refl
no_faster_more b c (w ∷ ws) h e = ground (arith, h, e)

run_attempts-in_range :
    (backoff : ℕ) (attempts : List ConnectionAttempt)
    → 2 * second ≤ backoff
    → backoff ≤ 30 * second
    → (in_range (run_attempts backoff attempts).0 ≡ true)
      × (no_faster backoff (run_attempts backoff attempts).0 ≡ true)
      × (length (run_attempts backoff attempts).0 ≤ length attempts)
unfolding run_attempts in_range no_faster
run_attempts-in_range backoff [] h1 h2 = (refl, refl, omega arith)
run_attempts-in_range backoff (a ∷ attempts) h1 h2 =
    let wait = backoff_after backoff a in
    let (least, most) = backoff_after_bounds backoff a h1 h2 in
    let (ranged, slow, few) =
      run_attempts-in_range (min (wait * 2) (30 * second)) attempts (omega (arith, least))
        (omega arith) in
    let slower =
      no_faster_more (min (wait * 2) (30 * second)) (wait * 2)
        (run_attempts (min (wait * 2) (30 * second)) attempts).0 (omega arith) slow in
    (ground (arith, least, most, ranged), ground (arith, most, slower), ground (arith, few))

-- Each wait of the client is from 2 s to 30 s, the first is 2 s, no wait is more than twice the one
-- before it, and there is at most one wait for each attempt.
pub run_client_waits :
    (attempts : List ConnectionAttempt)
    → (in_range (run_client attempts).0 ≡ true)
      × (no_faster (2 * second) (run_client attempts).0 ≡ true)
      × (length (run_client attempts).0 ≤ length attempts)
unfolding run_client
run_client_waits attempts = run_attempts-in_range (2 * second) attempts (omega arith) (omega arith)
