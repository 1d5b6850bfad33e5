-- ===== src/Nomination.antt =====
-- nomination.go, `nominationTracker`: the progress of the master's wait sequence for each remote
-- UDP tuple, and the tuple that is selected. A call that would close the channel of the selection a
-- second time panics, which is `none`; each method holds the lock throughout.
pub mod Consistency
pub mod Progress
pub mod Selection
use teleport_client.Base.{
  ℕ, ◌+◌, Bool, true, false, not, ◌||◌, ◌&&◌, Option, none, some, List, [], ◌∷◌, Text, ℤ, pos,
  negsuc, leb, ◌==◌, get_elem?, length, is_empty, lookup, insert, if◌then◌else◌,
}

abbrev pub nomination_wait_sequence : List ℕ
nomination_wait_sequence = 2000 ∷ 1000 ∷ 500 ∷ 250 ∷ 125 ∷ []

abbrev pub sequence_length : ℕ
sequence_length = 5

pub record NominationTracker : Type 0 where
  pub pairs : List (Text × ℕ)
  pub active : Bool
  pub selected : Text
  pub selected_closed : Bool

unfoldable pub new_nomination_tracker : NominationTracker
new_nomination_tracker = record {
  pairs = [];
  active = false;
  selected = [];
  selected_closed = false;
}

abbrev pub or_fresh : Option ℕ → ℕ
or_fresh none = 0
or_fresh (some n) = n

-- `p.nextWait` of a tuple; a tuple that has not been seen starts at 0.
unfoldable pub next_wait : NominationTracker → Text → ℕ
next_wait t addr = or_fresh (lookup addr t.pairs)

-- `waitMs == nominationWaitSequence[i]`.
abbrev pub is_wait : Option ℕ → ℤ → Bool
is_wait none wait_ms = false
is_wait (some w) (pos n) = n == w
is_wait (some w) (negsuc n) = false

-- `t.selected = addr; close(t.selectedCh)`.
unfoldable pub select : NominationTracker → Text → Option NominationTracker
select t addr =
    if t.selected_closed then none else some (record t { selected = addr; selected_closed = true })

abbrev with_answer : Option NominationTracker → Option (NominationTracker × Bool)
with_answer none = none
with_answer (some t) = some (t, true)

unfoldable pub observe : NominationTracker → Text → ℤ → Option (NominationTracker × Bool)
unfolding next_wait select
observe t addr wait_ms =
    let n = next_wait t addr in
    let seen = record t { pairs = insert addr n t.pairs } in
    let moved = record t { pairs = insert addr (n + 1) t.pairs } in
    if not (is_empty t.selected) || leb sequence_length n
    then some (seen, false)
    else if not (is_wait (get_elem? nomination_wait_sequence n) wait_ms)
    then some (seen, false)
    else if n + 1 == sequence_length
    then (if not t.active then some (moved, false) else with_answer (select moved addr))
    else some (moved, false)

-- The loop of `activate` over the map, in the order in which the runtime visits its keys.
unfoldable pub select_completed : NominationTracker → List Text → Option NominationTracker
unfolding next_wait select
select_completed t [] = some t
select_completed t (addr ∷ order) =
    let rest = select_completed t order in
    if next_wait t addr == sequence_length then select t addr else rest

unfoldable pub activate : NominationTracker → List Text → Option NominationTracker
activate t order =
    let started = record t { active = true } in
    if t.active then some t else select_completed started order

unfoldable pub selected_endpoint : NominationTracker → Text
selected_endpoint t = t.selected

-- What the tracker is told, in the order of its lock: a wait from a tuple, or the activation, with the
-- order in which it visits the map.
pub data Event : Type 0 where
  observes : Text → ℤ → Event
  activates : List Text → Event

abbrev first_of_pair : Option (NominationTracker × Bool) → Option NominationTracker
first_of_pair none = none
first_of_pair (some (t, b)) = some t

unfoldable pub step : NominationTracker → Event → Option NominationTracker
unfolding observe activate
step t (observes addr wait_ms) = first_of_pair (observe t addr wait_ms)
step t (activates order) = activate t order

unfoldable pub run : NominationTracker → List Event → Option NominationTracker
run t [] = some t
run t (e ∷ es) = elim (step t e) [ none ↦ none | some t' ↦ run t' es ]
