-- ===== src/PeerMtu/Invariant.antt =====
-- What holds of the prober of peermtu.go between two calls of its methods.
use teleport_client.Base.{
  ℕ, zero, suc, ◌+◌, ◌≤◌, ◌<◌, ◌≡◌, refl, Bool, true, some, List, [], ◌∷◌, arith, get_elem?, drop,
  ltb, leb, ◌&&◌, not, keep, inl, inr, Option-cases,
}
use teleport_client.PeerMtu.{
  searching, is_searching, base_tunnel_mtu, PeerMtuProber, max_probes_per_milestone,
  start_index_from, new_auto_prober, new_peer_mtu_prober, arm, next_probe_mtu, record_probe_result,
  reset,
}

-- Each milestone lies above the one before it, and the first above `c`.
unfoldable pub ascending : ℕ → List ℕ → Bool
ascending c [] = true
ascending c (m ∷ ms) = ltb c m && ascending m ms

unfoldable pub all_at_most : ℕ → List ℕ → Bool
all_at_most b [] = true
all_at_most b (m ∷ ms) = leb m b && all_at_most b ms

pub record IsValid (p : PeerMtuProber) : Type 0 where
  pub ladder : ascending base_tunnel_mtu p.milestones ≡ true
  pub capped : all_at_most p.max_target_mtu p.milestones ≡ true
  pub floor : base_tunnel_mtu ≤ p.max_target_mtu
  pub at_least : base_tunnel_mtu ≤ p.confirmed_mtu
  pub within : p.confirmed_mtu ≤ p.max_target_mtu
  pub ahead :
      p.state ≡ searching → ascending p.confirmed_mtu (drop p.current_index p.milestones) ≡ true
  pub patient : p.state ≡ searching → p.failed_attempts < max_probes_per_milestone

-- The milestone at the index heads what is left to probe.
pub drop-get_elem? :
    (ms : List ℕ) (i m : ℕ) → get_elem? ms i ≡ some m → drop i ms ≡ m ∷ drop (i + 1) ms
drop-get_elem? [] i m e = cc
drop-get_elem? (x ∷ ms) zero m e = ground arith
drop-get_elem? (x ∷ ms) (suc i) m e = ground (arith, drop-get_elem? ms i m e)

pub get_elem?-le :
    (b i m : ℕ) (ms : List ℕ) → all_at_most b ms ≡ true → get_elem? ms i ≡ some m → m ≤ b
unfolding all_at_most
get_elem?-le b i m [] h e = cc
get_elem?-le b zero m (x ∷ ms) h e = ground arith
get_elem?-le b (suc i) m (x ∷ ms) h e = ground (arith, get_elem?-le b i m ms)

-- What is left to probe at the current milestone.
pub ascending-drop :
    (c i m : ℕ) (ms : List ℕ)
    → get_elem? ms i ≡ some m
    → ascending c (drop i ms) ≡ true
    → (c < m) × (ascending m (drop (i + 1) ms) ≡ true)
unfolding ascending
ascending-drop c i m ms e h = ground (arith, drop-get_elem? ms i m e)

module _ (p : PeerMtuProber) (v : IsValid p) where
  pub arm-IsValid : IsValid (arm p)
  unfolding arm
  arm-IsValid = ground arith

  pub reset-IsValid : IsValid (reset p)
  unfolding reset
  reset-IsValid = ground arith

  pub record_probe_result-IsValid :
      (target : ℕ) (success : Bool) → IsValid (record_probe_result p target success).0
  unfolding record_probe_result
  record_probe_result-IsValid target success =
      elim (Option-cases (get_elem? p.milestones p.current_index)) [
        | inl e ↦ ground arith
        | inr (m, e) ↦ ground (
          arith,
          ascending-drop p.confirmed_mtu p.current_index m p.milestones e,
          get_elem?-le p.max_target_mtu p.current_index m p.milestones v.capped e,
        )
      ]

new_auto_prober-IsValid :
    (initial target : ℕ) → initial ≤ target → IsValid (new_auto_prober initial target)
unfolding new_auto_prober keep start_index_from ascending all_at_most
new_auto_prober-IsValid initial target h = ground arith

-- A new prober is valid, if a configured MTU is at least 1280, and the initial MTU is no greater than
-- the ceiling when none is configured.
pub new_peer_mtu_prober-IsValid :
    (initial target manual : ℕ)
    → (manual ≡ 0 → initial ≤ target)
    → (0 < manual → base_tunnel_mtu ≤ manual)
    → IsValid (new_peer_mtu_prober initial target manual)
unfolding new_peer_mtu_prober ascending all_at_most
new_peer_mtu_prober-IsValid initial target zero auto manual_ok =
    new_auto_prober-IsValid initial target (auto refl)
new_peer_mtu_prober-IsValid initial target (suc n) auto manual_ok =
    ground (arith, manual_ok (omega arith))

-- The calls that the echo pinger makes, in any order and with any arguments.
pub data Call : Type 0 where
  arms : Call
  resets : Call
  results : ℕ → Bool → Call

pub step : PeerMtuProber → Call → PeerMtuProber
step p arms = arm p
step p resets = reset p
step p (results target success) = (record_probe_result p target success).0

pub run : PeerMtuProber → List Call → PeerMtuProber
run p [] = p
run p (c ∷ cs) = run (step p c) cs

pub step-IsValid : (p : PeerMtuProber) (c : Call) → IsValid p → IsValid (step p c)
unfolding step
step-IsValid p arms v = arm-IsValid p v
step-IsValid p resets v = reset-IsValid p v
step-IsValid p (results target success) v = record_probe_result-IsValid p v target success

-- Any calls of the methods, in any order and with any arguments, keep a valid prober valid: its
-- milestones ascend up to the ceiling, and the confirmed MTU is from 1280 to the ceiling and below
-- every milestone still to be probed.
pub run-IsValid : (p : PeerMtuProber) (cs : List Call) → IsValid p → IsValid (run p cs)
unfolding run
run-IsValid p [] v = v
run-IsValid p (c ∷ cs) v = run-IsValid (step p c) cs (step-IsValid p c v)

-- From a valid prober a probe is larger than the confirmed MTU and at most as large as the ceiling.
pub next_probe_mtu_bounds :
    (p : PeerMtuProber) {m : ℕ}
    → IsValid p
    → next_probe_mtu p ≡ some m
    → (p.confirmed_mtu < m) × (m ≤ p.max_target_mtu)
unfolding next_probe_mtu
next_probe_mtu_bounds p {m} v e = ground (
  arith,
  ascending-drop p.confirmed_mtu p.current_index m p.milestones,
  get_elem?-le p.max_target_mtu p.current_index m p.milestones v.capped,
)

-- A result recorded by a valid prober: the confirmed MTU does not fall, `mtu_changed` says exactly whether it rose, and the
-- returned MTU is the confirmed one.
pub record_probe_result_reports :
    (p : PeerMtuProber) (target : ℕ) (success : Bool)
    → IsValid p
    → let (q, r) = record_probe_result p target success in
      (p.confirmed_mtu ≤ q.confirmed_mtu)
      × (r.new_mtu ≡ q.confirmed_mtu)
      × (r.mtu_changed ≡ ltb p.confirmed_mtu q.confirmed_mtu)
      × (r.search_done ≡ not (is_searching q.state))
unfolding record_probe_result
record_probe_result_reports p target success v =
    elim (Option-cases (get_elem? p.milestones p.current_index)) [
      | inl e ↦ ground arith
      | inr (m, e) ↦ ground (arith, ascending-drop p.confirmed_mtu p.current_index m p.milestones e)
    ]
