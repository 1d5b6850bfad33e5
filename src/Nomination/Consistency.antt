-- ===== src/Nomination/Consistency.antt =====
-- Each call of the tracker keeps its progress consistent with the waits that it has seen.
use teleport_client.Base.{
  ℕ, zero, suc, ◌+◌, ◌≤◌, ◌<◌, ◌≡◌, refl, Bool, true, false, not, ◌||◌, ◌&&◌, none, some, List, [],
  ◌∷◌, Text, ℤ, leb, ◌==◌, get_elem?, arith, is_empty, lookup, insert, lookup-insert, if◌then◌else◌,
  text_eq, text_eq→eq, text_eq_refl, ◌≢◌, Bool-cases, inl, inr, contains,
}
use teleport_client.Nomination.{
  nomination_wait_sequence, sequence_length, NominationTracker, new_nomination_tracker, next_wait,
  or_fresh, is_wait, observe,
}

-- The progress after one more wait, as long as nothing is selected.
unfoldable pub advance : ℕ → ℤ → ℕ
advance n wait_ms = if is_wait (get_elem? nomination_wait_sequence n) wait_ms then n + 1 else n

-- Whether a wait completes the sequence.
abbrev pub completes : ℕ → ℤ → Bool
completes n wait_ms = leb (n + 1) 5 && advance n wait_ms == 5

pub record IsConsistent (t : NominationTracker) : Type 0 where
  pub closed : t.selected_closed ≡ not (is_empty t.selected)
  pub started : is_empty t.selected ≡ false → t.active ≡ true
  pub bounded : (a : Text) → next_wait t a ≤ sequence_length
  pub nothing_pending :
      t.active ≡ true → is_empty t.selected ≡ true → (a : Text) → next_wait t a < sequence_length
  pub winner : is_empty t.selected ≡ false → next_wait t t.selected ≡ sequence_length

sequence_end : (n : ℕ) → 5 ≤ n → get_elem? nomination_wait_sequence n ≡ none
sequence_end zero h = absurd (omega arith)
sequence_end (suc zero) h = absurd (omega arith)
sequence_end (suc (suc zero)) h = absurd (omega arith)
sequence_end (suc (suc (suc zero))) h = absurd (omega arith)
sequence_end (suc (suc (suc (suc zero)))) h = absurd (omega arith)
sequence_end (suc (suc (suc (suc (suc n))))) h = refl

pub new-IsConsistent : IsConsistent new_nomination_tracker
unfolding new_nomination_tracker next_wait lookup is_empty
new-IsConsistent = record {
  closed = refl;
  started = λ h. cc;
  bounded = λ a. omega arith;
  nothing_pending = λ h e a. omega arith;
  winner = λ h. cc;
}

-- A write to one tuple's pair changes the progress of that tuple alone.
next_wait-insert :
    (t : NominationTracker) (addr a : Text) (n : ℕ)
    → or_fresh (lookup a (insert addr n t.pairs)) ≡ (if text_eq addr a then n else next_wait t a)
unfolding next_wait
next_wait-insert t addr a n = elim (Bool-cases (text_eq addr a)) [
  | inl e ↦ rw (lookup-insert addr a n t.pairs, e)
  | inr e ↦ rw (lookup-insert addr a n t.pairs, e)
]

-- What one observation does.
pub record Observed (t : NominationTracker) (addr : Text) (wait_ms : ℤ) (t' : NominationTracker)
    (answer : Bool) : Type 0 where
  pub same_active : t'.active ≡ t.active
  pub progress :
      (a : Text)
      → next_wait t' a ≡ (
          if is_empty t.selected && text_eq addr a
          then advance (next_wait t a) wait_ms
          else next_wait t a)
  pub answered :
      answer ≡ (is_empty t.selected && (t.active && completes (next_wait t addr) wait_ms))
  pub selection : t'.selected ≡ (if answer then addr else t.selected)
  pub closing : t'.selected_closed ≡ (answer || t.selected_closed)

module _ (t : NominationTracker) (v : IsConsistent t) (addr : Text) (wait_ms : ℤ) where
  -- The pair is looked up, and made if it is new; nothing else changes.
  stays :
      (is_empty t.selected
          && is_wait (get_elem? nomination_wait_sequence (next_wait t addr)) wait_ms)
        ≡ false
      → let t' = record t { pairs = insert addr (next_wait t addr) t.pairs } in
        (observe t addr wait_ms ≡ some (t', false)) × Observed t addr wait_ms t' false
  stays h = (
    unfold observe in ground (arith, sequence_end (next_wait t addr)),
    record {
      same_active = refl;
      progress = λ a.
          unfold next_wait advance in
          ground (arith, next_wait-insert t addr a (next_wait t addr), text_eq→eq addr a);
      answered = unfold advance in ground (arith, v.bounded addr);
      selection = refl;
      closing = refl;
    },
  )

  -- The wait is the next one of its sequence; `final` is whether it selects the tuple.
  module _
      (hit : (is_empty t.selected
          && is_wait (get_elem? nomination_wait_sequence (next_wait t addr)) wait_ms)
        ≡ true) where
    moved : NominationTracker
    moved = record t { pairs = insert addr (next_wait t addr + 1) t.pairs }

    room : next_wait t addr < 5
    room = ground (arith, sequence_end (next_wait t addr), v.bounded addr)

    moves :
        (t.active && (next_wait t addr + 1 == 5)) ≡ false
        → (observe t addr wait_ms ≡ some (moved, false)) × Observed t addr wait_ms moved false
    unfolding moved
    moves h = (
      unfold observe in ground (arith, room),
      record {
        same_active = refl;
        progress = λ a.
            unfold next_wait advance in
            ground (arith, next_wait-insert t addr a (next_wait t addr + 1), text_eq→eq addr a);
        answered = unfold advance in ground (arith, room);
        selection = refl;
        closing = refl;
      },
    )

    won : NominationTracker
    won = record moved { selected = addr; selected_closed = true }

    wins :
        (t.active && (next_wait t addr + 1 == 5)) ≡ true
        → (observe t addr wait_ms ≡ some (won, true)) × Observed t addr wait_ms won true
    unfolding moved won
    wins h = (
      unfold observe in ground (arith, room, v.closed),
      record {
        same_active = refl;
        progress = λ a.
            unfold next_wait advance in
            ground (arith, next_wait-insert t addr a (next_wait t addr + 1), text_eq→eq addr a);
        answered = unfold advance in ground (arith, room);
        selection = refl;
        closing = refl;
      },
    )

  -- From a consistent tracker an observation does not panic, and does what `Observed` says.
  pub observe-Observed :
      (t' : NominationTracker) × (answer : Bool) × (observe t addr wait_ms ≡ some (t', answer))
      × Observed t addr wait_ms t' answer
  observe-Observed =
      elim (Bool-cases (
        is_empty t.selected
        && is_wait (get_elem? nomination_wait_sequence (next_wait t addr)) wait_ms)) [
          | inr miss ↦ (
            record t { pairs = insert addr (next_wait t addr) t.pairs },
            false,
            (stays miss).0,
            (stays miss).1,
          )
          | inl hit ↦ elim (Bool-cases (t.active && (next_wait t addr + 1 == 5))) [
            | inl last ↦ (won hit, true, (wins hit last).0, (wins hit last).1)
            | inr more ↦ (moved hit, false, (moves hit more).0, (moves hit more).1)
          ]
        ]

advance-le : (n : ℕ) (wait_ms : ℤ) → n ≤ 5 → advance n wait_ms ≤ 5
unfolding advance
advance-le n wait_ms h = ground (arith, sequence_end n)

-- A consistent tracker stays consistent under an observation from a tuple with a name.
pub observe-IsConsistent :
    (t t' : NominationTracker) (addr : Text) (wait_ms : ℤ) (answer : Bool)
    → IsConsistent t
    → is_empty addr ≡ false
    → Observed t addr wait_ms t' answer
    → IsConsistent t'
observe-IsConsistent t t' addr wait_ms answer v named o = record {
  closed = ground (arith, o.closing, o.selection, v.closed, o.answered);
  started = λ h. ground (arith, o.same_active, o.selection, o.answered, v.started);
  bounded = λ a. ground (arith, o.progress a, v.bounded a, advance-le (next_wait t a) wait_ms);
  nothing_pending = λ act free a.
      let quiet : answer ≡ false = ground (arith, o.selection) in
      let before : is_empty t.selected ≡ true = ground (arith, o.selection) in
      let on : t.active ≡ true = ground (arith, o.same_active) in
      ground (
        arith,
        o.progress a,
        o.answered,
        v.nothing_pending on before a,
        text_eq→eq addr a,
        advance-le (next_wait t a) wait_ms,
      );
  winner = λ h. elim (Bool-cases answer) [
    | inl yes' ↦
        let at : t'.selected ≡ addr = ground (arith, o.selection) in
        rw at (
          ground (
            arith,
            o.progress addr,
            o.answered,
            text_eq_refl addr,
            advance-le (next_wait t addr) wait_ms,
          ))
    | inr no' ↦
        let at : t'.selected ≡ t.selected = ground (arith, o.selection) in
        rw at (ground (arith, o.progress t.selected, v.winner, rw at at h))
  ];
}

-- The activation of a consistent tracker does not panic; it selects a tuple whose sequence is
-- complete, if the order visits one.
pub record Activated (t : NominationTracker) (order : List Text) (t' : NominationTracker)
    : Type 0 where
  pub now_active : t'.active ≡ true
  pub progress : (a : Text) → next_wait t' a ≡ next_wait t a
  pub closing : t'.selected_closed ≡ not (is_empty t'.selected)
  pub kept : is_empty t.selected ≡ false → t'.selected ≡ t.selected
  pub winner : is_empty t'.selected ≡ false → next_wait t t'.selected ≡ sequence_length
  pub none_left :
      is_empty t'.selected ≡ true
      → (a : Text) → contains order a ≡ true
      → next_wait t a ≢ sequence_length

abbrev pub all_named : List Text → Bool
all_named [] = true
all_named (a ∷ order) = not (is_empty a) && all_named order
