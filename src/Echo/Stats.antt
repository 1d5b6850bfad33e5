-- ===== src/Echo/Stats.antt =====
-- The statistics of one window of echo round trips, against the list of round trips.
use teleport_client.Base.{
  ℕ, ◌+◌, ◌*◌, ◌/◌, ◌≤◌, ◌<◌, ◌≡◌, refl, Bool, true, ◌&&◌, Option, List, [], ◌∷◌, arith, length,
  ltb, leb, ◌==◌, if◌then◌else◌, Bool-cases, inl, inr, ◌||◌,
}
use teleport_client.Echo.{UdpEchoStats, observe_rtt, empty_stats}

mul_mono : (a b n : ℕ) → a ≤ b → a * n ≤ b * n
mul_mono a b n h = grind arith

le-div : (a n t : ℕ) → 0 < n → a * n ≤ t → a ≤ t / n
le-div a n t p h = grind arith

div-le : (b n t : ℕ) → 0 < n → t ≤ b * n → t / n ≤ b
div-le b n t p h = grind arith

pub observe_all : UdpEchoStats → List (ℕ × ℕ) → UdpEchoStats
observe_all s [] = s
observe_all s ((now, rtt) ∷ xs) = observe_all (observe_rtt s now rtt).0 xs

abbrev pub sum_rtt : List (ℕ × ℕ) → ℕ
sum_rtt [] = 0
sum_rtt ((now, rtt) ∷ xs) = rtt + sum_rtt xs

-- Every round trip of the list took at least `lo`, which is not 0, and at most `hi`.
unfoldable pub between : ℕ → ℕ → List (ℕ × ℕ) → Bool
between lo hi [] = true
between lo hi ((now, rtt) ∷ xs) = (leb lo rtt && leb rtt hi) && between lo hi xs

between_mono :
    (lo hi lo' hi' : ℕ) (xs : List (ℕ × ℕ))
    → between lo hi xs ≡ true
    → lo' ≤ lo
    → hi ≤ hi'
    → between lo' hi' xs ≡ true
unfolding between
between_mono lo hi lo' hi' [] h a b = refl
between_mono lo hi lo' hi' ((now, rtt) ∷ xs) h a b = ground (arith, between_mono lo hi lo' hi' xs)

observe_all_sums :
    (s : UdpEchoStats) (xs : List (ℕ × ℕ))
    → ((observe_all s xs).count ≡ s.count + length xs)
      × ((observe_all s xs).total ≡ s.total + sum_rtt xs)
unfolding observe_all observe_rtt
observe_all_sums s [] = (omega arith, omega arith)
observe_all_sums s ((now, rtt) ∷ xs) =
    let (c, t) = observe_all_sums (observe_rtt s now rtt).0 xs in
    (omega (arith, c), omega (arith, t))

-- Statistics that have seen a round trip: the mean lies between the extremes.
pub record IsMean (s : UdpEchoStats) : Type 0 where
  pub positive : 0 < s.min
  pub above : s.min * s.count ≤ s.total
  pub below : s.total ≤ s.max * s.count

observe_rtt-IsMean :
    (s : UdpEchoStats) (now rtt : ℕ) → 0 < rtt → IsMean s → IsMean (observe_rtt s now rtt).0
unfolding observe_rtt
observe_rtt-IsMean s now rtt h v = record {
  positive = ground arith;
  above = scale_min s.min s.count s.total rtt v.positive v.above;
  below = scale_max s.max s.count s.total rtt v.below;
}
  where
    scale_min :
        (lo n t r : ℕ)
        → 0 < lo
        → lo * n ≤ t
        → (if lo == 0 || ltb r lo then r else lo) * (n + 1) ≤ t + r
    scale_min lo n t r p q = elim (Bool-cases (ltb r lo)) [
      | inl e ↦ ground (arith, mul_mono r lo n)
      | inr e ↦ ground arith
    ]

    scale_max : (hi n t r : ℕ) → t ≤ hi * n → t + r ≤ (if ltb hi r then r else hi) * (n + 1)
    scale_max hi n t r q = elim (Bool-cases (ltb hi r)) [
      | inl e ↦ ground (arith, mul_mono hi r n)
      | inr e ↦ ground arith
    ]

observe_all-IsMean :
    (s : UdpEchoStats) (xs : List (ℕ × ℕ)) (hi : ℕ)
    → between 1 hi xs ≡ true
    → IsMean s
    → IsMean (observe_all s xs)
unfolding observe_all between
observe_all-IsMean s [] hi h v = v
observe_all-IsMean s ((now, rtt) ∷ xs) hi h v =
    observe_all-IsMean (observe_rtt s now rtt).0 xs hi (ground arith)
      (observe_rtt-IsMean s now rtt (ground arith) v)

-- The extremes only widen, and take in each new round trip.
observe_all_spread :
    (s : UdpEchoStats) (xs : List (ℕ × ℕ)) (hi : ℕ)
    → between 1 hi xs ≡ true
    → 0 < s.min
    → let t = observe_all s xs in
      (between t.min t.max xs ≡ true) × (t.min ≤ s.min) × (s.max ≤ t.max)
unfolding observe_all between observe_rtt
observe_all_spread s [] hi h p = (refl, omega arith, omega arith)
observe_all_spread s ((now, rtt) ∷ xs) hi h p =
    ground (arith, observe_all_spread (observe_rtt s now rtt).0 xs hi)

-- The statistics of a window in which every round trip took some time: their number and their sum,
-- bounds that every one of them keeps, and a mean between the bounds.
pub window_statistics :
    (start : Option ℕ) (now rtt hi : ℕ) (xs : List (ℕ × ℕ))
    → between 1 hi ((now, rtt) ∷ xs) ≡ true
    → let s = observe_all (empty_stats start) ((now, rtt) ∷ xs) in
      (s.count ≡ length xs + 1)
      × (s.total ≡ rtt + sum_rtt xs)
      × (between s.min s.max ((now, rtt) ∷ xs) ≡ true)
      × (s.min ≤ s.total / s.count)
      × (s.total / s.count ≤ s.max)
unfolding observe_all between
window_statistics start now rtt hi xs h =
    let t = observe_all first xs in
    let (c, sum) = observe_all_sums first xs in
    let (all, low, high) = observe_all_spread first xs hi rest positive in
    let mean = observe_all-IsMean first xs hi rest first-IsMean in
    (
      unfold observe_rtt in omega (arith, c),
      unfold observe_rtt in omega (arith, sum),
      unfold observe_rtt in ground (arith, all, low, high),
      le-div t.min t.count t.total (unfold observe_rtt in omega (arith, c)) mean.above,
      div-le t.max t.count t.total (unfold observe_rtt in omega (arith, c)) mean.below,
    )
  where
    first : UdpEchoStats
    first = (observe_rtt (empty_stats start) now rtt).0

    rest : between 1 hi xs ≡ true
    rest = ground arith

    positive : 0 < first.min
    positive = unfold observe_rtt in ground arith

    first-IsMean : IsMean first
    first-IsMean = unfold observe_rtt in ground arith
