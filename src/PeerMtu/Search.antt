-- ===== src/PeerMtu/Search.antt =====
-- The whole search of peermtu.go, driven as `runUDPEchoPinger` drives it, on a path that passes
-- packets up to a fixed size: it ends, and locks the largest milestone that the path passes.
use teleport_client.Base.{
  ℕ, zero, suc, ◌+◌, ◌-◌, ◌*◌, ◌≤◌, ◌<◌, ◌≡◌, refl, ◌∙◌, true, false, none, some, List, [], ◌∷◌,
  arith, length, get_elem?, drop, leb, inl, inr, ◌⊎◌, Bool-cases, if◌then◌else◌, keep, min,
}
use native.Mathlib.Decide.{dec_lt}
use teleport_client.PeerMtu.{
  searching, search_complete, PeerMtuProber, base_tunnel_mtu, next_probe_mtu, record_probe_result,
  new_peer_mtu_prober, start_index_from,
}
use teleport_client.PeerMtu.Invariant.{
  IsValid, ascending, new_peer_mtu_prober-IsValid, ascending-drop, drop-get_elem?,
  record_probe_result-IsValid,
}

-- Probe the next milestone, record whether the path passed it, and go on, at most `rounds` times.
pub search_path : ℕ → ℕ → PeerMtuProber → PeerMtuProber
search_path path zero p = p
search_path path (suc rounds) p = elim (next_probe_mtu p) [
  | none ↦ p
  | some m ↦ search_path path rounds (record_probe_result p m (leb m path)).0
]

-- The largest of `c` and of the milestones that the path passes, without the search.
pub largest_passed : ℕ → ℕ → List ℕ → ℕ
largest_passed path c [] = c
largest_passed path c (m ∷ ms) = largest_passed path (if leb m path then m else c) ms

-- Above a milestone that does not pass none does.
largest_passed_stop :
    (path c m : ℕ) (ms : List ℕ) → path < m → ascending m ms ≡ true → largest_passed path c ms ≡ c
unfolding largest_passed ascending
largest_passed_stop path c m [] h a = refl
largest_passed_stop path c m (x ∷ ms) h a = ground (arith, largest_passed_stop path c x ms)

-- Rounds that a search may still take: two for each milestone left, less the failures so far.
abbrev pub rounds_left : PeerMtuProber → ℕ
rounds_left p = 2 * length (drop p.current_index p.milestones) - p.failed_attempts

pub record IsProbing (p : PeerMtuProber) : Type 0 where
  pub valid : IsValid p
  pub on : p.state ≡ searching
  pub ready : p.armed ≡ true
  pub more : 0 < length (drop p.current_index p.milestones)

abbrev Locks : ℕ → PeerMtuProber → PeerMtuProber → Type 0
Locks path p q =
    (q.state ≡ search_complete)
    × (q.confirmed_mtu ≡ largest_passed path p.confirmed_mtu (drop p.current_index p.milestones))

length-drop_end : {A : Type 0} (i : ℕ) (ms : List A) → length ms ≤ i → drop i ms ≡ []
length-drop_end zero [] h = refl
length-drop_end zero (x ∷ ms) h = absurd (omega arith)
length-drop_end (suc i) [] h = refl
length-drop_end (suc i) (x ∷ ms) h = length-drop_end i ms (omega arith)

length-drop : {A : Type 0} (i : ℕ) (ms : List A) → length (drop i ms) ≡ length ms - i
length-drop zero ms = omega arith
length-drop (suc i) [] = omega arith
length-drop (suc i) (x ∷ ms) = omega (arith, length-drop i ms)

get_elem?_of_lt :
    {A : Type 0} (i : ℕ) (ms : List A)
    → 0 < length (drop i ms)
    → (m : A) × (get_elem? ms i ≡ some m)
get_elem?_of_lt zero [] h = absurd (omega arith)
get_elem?_of_lt zero (x ∷ ms) h = (x, refl)
get_elem?_of_lt (suc i) [] h = absurd (omega arith)
get_elem?_of_lt (suc i) (x ∷ ms) h = get_elem?_of_lt i ms h

-- One round: the search goes on with fewer rounds left and the same outcome, or it ends with it.
abbrev Progress : ℕ → PeerMtuProber → PeerMtuProber → Type 0
Progress path p q =
    Locks path p q
    ⊎ (IsProbing q
        × (rounds_left q < rounds_left p)
        × (largest_passed path q.confirmed_mtu (drop q.current_index q.milestones)
            ≡ largest_passed path p.confirmed_mtu (drop p.current_index p.milestones)))

module _ (path : ℕ) (p : PeerMtuProber) (m : ℕ) (v : IsProbing p)
    (e : get_elem? p.milestones p.current_index ≡ some m) where
  round_passed : leb m path ≡ true → Progress path p (record_probe_result p m true).0
  unfolding record_probe_result largest_passed
  round_passed h = ground (
    arith,
    record_probe_result-IsValid p v.valid m true,
    drop-get_elem? p.milestones p.current_index m e,
    length-drop p.current_index p.milestones,
    length-drop (p.current_index + 1) p.milestones,
    length-drop_end (p.current_index + 1) p.milestones,
  )

  round_lost : leb m path ≡ false → Progress path p (record_probe_result p m false).0
  unfolding record_probe_result largest_passed
  round_lost h = ground (
    arith,
    record_probe_result-IsValid p v.valid m false,
    drop-get_elem? p.milestones p.current_index m e,
    ascending-drop p.confirmed_mtu p.current_index m p.milestones e,
    largest_passed_stop path p.confirmed_mtu m (drop (p.current_index + 1) p.milestones),
  )

  probe_round : Progress path p (record_probe_result p m (leb m path)).0
  probe_round = elim (Bool-cases (leb m path)) [
    | inl h ↦ rw h (round_passed h)
    | inr h ↦ rw h (round_lost h)
  ]

next_probe_mtu-at :
    (p : PeerMtuProber) {m : ℕ}
    → IsProbing p
    → get_elem? p.milestones p.current_index ≡ some m
    → next_probe_mtu p ≡ some m
unfolding next_probe_mtu
next_probe_mtu-at p v e = ground arith

search_path-done :
    (path n : ℕ) (q : PeerMtuProber) → q.state ≡ search_complete → search_path path n q ≡ q
unfolding search_path next_probe_mtu
search_path-done path zero q h = refl
search_path-done path (suc n) q h = ground arith

-- A search by a probing prober, with as many rounds as it may still take, ends, and the confirmed MTU
-- is then the largest milestone ahead that the path passes, or the old one if it passes none.
pub search_path-Locks :
    (path rounds : ℕ) (p : PeerMtuProber)
    → IsProbing p
    → rounds_left p ≤ rounds
    → Locks path p (search_path path rounds p)
unfolding search_path
search_path-Locks path zero p v h = absurd (omega (arith, v.valid.patient v.on, v.more))
search_path-Locks path (suc n) p v h =
    let (m, e) = get_elem?_of_lt p.current_index p.milestones v.more in
    let q = (record_probe_result p m (leb m path)).0 in
    rw (next_probe_mtu-at p v e, search_path)
      (elim (probe_round path p m v e) [
        | inl done ↦ rw (search_path-done path n q done.0) done
        | inr (w, fewer, same) ↦
            let ih = search_path-Locks path n q w (omega arith) in (ih.0, ih.1 ∙ same)
      ])

le-largest_passed :
    (path c : ℕ) (ms : List ℕ) → ascending c ms ≡ true → c ≤ largest_passed path c ms
unfolding largest_passed ascending
le-largest_passed path c [] a = omega arith
le-largest_passed path c (x ∷ ms) a =
    ground (arith, le-largest_passed path x ms, largest_passed_stop path c x ms)

milestone-le-largest_passed :
    (path c m i : ℕ) (ms : List ℕ)
    → ascending c ms ≡ true
    → get_elem? ms i ≡ some m
    → m ≤ path
    → m ≤ largest_passed path c ms
unfolding largest_passed ascending
milestone-le-largest_passed path c m i [] a e h = cc
milestone-le-largest_passed path c m zero (x ∷ ms) a e h =
    ground (arith, le-largest_passed path x ms)
milestone-le-largest_passed path c m (suc i) (x ∷ ms) a e h =
    ground (arith, milestone-le-largest_passed path x m i ms, ascending_above c x m i ms)
  where
    ascending_above :
        (c x m i : ℕ) (ms : List ℕ) → ascending x ms ≡ true → get_elem? ms i ≡ some m → x < m
    ascending_above c x m i [] a e = cc
    ascending_above c x m zero (y ∷ ms) a e = ground arith
    ascending_above c x m (suc i) (y ∷ ms) a e = ground (arith, ascending_above c y m i ms)

largest_passed-le : (path c b : ℕ) (ms : List ℕ) → c ≤ b → path ≤ b → largest_passed path c ms ≤ b
unfolding largest_passed
largest_passed-le path c b [] h k = h
largest_passed-le path c b (x ∷ ms) h k =
    ground (arith, largest_passed-le path x b ms, largest_passed-le path c b ms)

-- The search locks an MTU at which the path works, and no milestone that it passes lies above it.
pub search_path_sound :
    (path rounds : ℕ) (p : PeerMtuProber)
    → IsProbing p
    → rounds_left p ≤ rounds
    → p.confirmed_mtu ≤ path
    → let q = search_path path rounds p in
      (q.state ≡ search_complete)
      × (q.confirmed_mtu ≤ path)
      × ((i m : ℕ)
          → get_elem? (drop p.current_index p.milestones) i ≡ some m
          → m ≤ path
          → m ≤ q.confirmed_mtu)
search_path_sound path rounds p v h k =
    let (done, locked) = search_path-Locks path rounds p v h in
    let left = drop p.current_index p.milestones in
    (
      done,
      rw locked (largest_passed-le path p.confirmed_mtu path left k (omega arith)),
      λ i m e passes.
          rw locked (
            milestone-le-largest_passed path p.confirmed_mtu m i left (v.valid.ahead v.on) e
              passes),
    )

-- The largest default milestone that is at most `n`, or the base MTU.
abbrev pub best_milestone : ℕ → ℕ
best_milestone n =
    if leb 1440 n
    then 1440
    else if leb 1420 n
    then 1420
    else if leb 1400 n
    then 1400
    else if leb 1360 n
    then 1360
    else base_tunnel_mtu

fresh-IsProbing :
    (target : ℕ) → 1360 ≤ target → IsProbing (new_peer_mtu_prober base_tunnel_mtu target 0)
unfolding new_peer_mtu_prober start_index_from keep
fresh-IsProbing target h = ground (arith, new_peer_mtu_prober-IsValid base_tunnel_mtu target 0)

fresh_rounds :
    (target : ℕ) → 1360 ≤ target → rounds_left (new_peer_mtu_prober base_tunnel_mtu target 0) ≤ 8
unfolding new_peer_mtu_prober start_index_from keep
fresh_rounds target h = ground arith

abbrev lower_best : ℕ → ℕ → ℕ
lower_best target path = if leb target path then best_milestone target else best_milestone path

fresh_largest :
    (target path : ℕ)
    → 1360 ≤ target
    → let p = new_peer_mtu_prober base_tunnel_mtu target 0 in
      largest_passed path p.confirmed_mtu (drop p.current_index p.milestones)
      ≡ lower_best target path
unfolding new_peer_mtu_prober start_index_from keep largest_passed
fresh_largest target path h = ground arith

fresh_done :
    (target path : ℕ)
    → target < 1360
    → let q = search_path path 8 (new_peer_mtu_prober base_tunnel_mtu target 0) in
      (q.state ≡ search_complete) × (q.confirmed_mtu ≡ base_tunnel_mtu)
unfolding search_path new_peer_mtu_prober next_probe_mtu start_index_from keep
fresh_done target path h = ground arith

-- A fresh automatic prober with the ceiling `target`, on a path that passes packets up to `path`,
-- ends its search within eight rounds and locks the best milestone that is at most both.
pub fresh_search :
    (target path : ℕ)
    → let q = search_path path 8 (new_peer_mtu_prober base_tunnel_mtu target 0) in
      (q.state ≡ search_complete) × (q.confirmed_mtu ≡ best_milestone (min target path))
fresh_search target path = elim (dec_lt target 1360) [
  | yes small ↦ let (done, floor) = fresh_done target path small in (done, ground arith)
  | no large ↦
      let big : 1360 ≤ target = omega arith in
      let (done, locked) =
        search_path-Locks path 8 _ (fresh-IsProbing target big) (fresh_rounds target big) in
      (done, locked ∙ fresh_largest target path big ∙ ground arith)
]
