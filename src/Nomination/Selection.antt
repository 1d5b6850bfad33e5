-- ===== src/Nomination/Selection.antt =====
-- Any run of the tracker, against the waits that each tuple sent: a tuple is selected only if its
-- waits contain the whole sequence in order, and some tuple is selected if one has.
use teleport_client.Base.{
  ℕ, zero, suc, ◌≤◌, ◌<◌, ◌≡◌, refl, sym, ◌∙◌, Bool, true, false, not, ◌||◌, ◌&&◌, some, List, [],
  ◌∷◌, Text, ℤ, arith, drop, is_empty, if◌then◌else◌, text_eq, lookup, Bool-cases, inl, inr,
}
use teleport_client.Nomination.{
  nomination_wait_sequence, NominationTracker, new_nomination_tracker, next_wait, is_wait, observe,
  activate, Event, observes, activates, step, run,
}
use teleport_client.Nomination.Progress.{Visits, activate-Activated}
use teleport_client.Nomination.Consistency.{
  advance, IsConsistent, new-IsConsistent, Observed, observe-Observed, observe-IsConsistent,
  Activated,
}

-- The waits of one tuple among the events.
unfoldable pub waits_of : Text → List Event → List ℤ
waits_of a [] = []
waits_of a (observes b w ∷ es) = let rest = waits_of a es in if text_eq b a then w ∷ rest else rest
waits_of a (activates order ∷ es) = waits_of a es

-- The waits contain `sequence`, in order, and perhaps others in between.
unfoldable pub has_subsequence : List ℕ → List ℤ → Bool
has_subsequence [] ws = true
has_subsequence (s ∷ sequence) [] = false
has_subsequence (s ∷ sequence) (w ∷ ws) =
    if is_wait (some s) w then has_subsequence sequence ws else has_subsequence (s ∷ sequence) ws

unfoldable pub activated : List Event → Bool
activated [] = false
activated (observes b w ∷ es) = activated es
activated (activates order ∷ es) = true

-- Each event comes from a tuple with a name, and each activation visits the whole map.
abbrev pub Admissible : NominationTracker → Event → Type 0
Admissible t (observes b w) = is_empty b ≡ false
Admissible t (activates order) = Visits t order

abbrev pub AdmissibleRun : NominationTracker → List Event → Type 0
AdmissibleRun t [] = Unit
AdmissibleRun t (e ∷ es) =
    Admissible t e × ((t' : NominationTracker) → step t e ≡ some t' → AdmissibleRun t' es)

-- What a tuple has yet to send.
abbrev missing : NominationTracker → Text → List ℕ
missing t a = drop (next_wait t a) nomination_wait_sequence

missing_step :
    (n : ℕ) (w : ℤ) (ws : List ℤ)
    → n ≤ 5
    → has_subsequence (drop (advance n w) nomination_wait_sequence) ws
      ≡ has_subsequence (drop n nomination_wait_sequence) (w ∷ ws)
unfolding advance has_subsequence
missing_step zero w ws h = ground arith
missing_step (suc zero) w ws h = ground arith
missing_step (suc (suc zero)) w ws h = ground arith
missing_step (suc (suc (suc zero))) w ws h = ground arith
missing_step (suc (suc (suc (suc zero)))) w ws h = ground arith
missing_step (suc (suc (suc (suc (suc zero))))) w ws h = refl
missing_step (suc (suc (suc (suc (suc (suc n)))))) w ws h = absurd (omega arith)

-- One event, seen with the events that follow it.
record Stepped (t : NominationTracker) (e : Event) (es : List Event) (t' : NominationTracker)
    : Type 0 where
  consistent : IsConsistent t'
  kept : is_empty t.selected ≡ false → t'.selected ≡ t.selected
  still_active : (activated (e ∷ es) || t.active) ≡ (activated es || t'.active)
  follows :
      is_empty t.selected ≡ true
      → (a : Text)
      → has_subsequence (missing t' a) (waits_of a es)
        ≡ has_subsequence (missing t a) (waits_of a (e ∷ es))

-- A tuple whose sequence is complete misses nothing.
complete_now :
    (n : ℕ) (ws : List ℤ) → n ≡ 5 → has_subsequence (drop n nomination_wait_sequence) ws ≡ true
unfolding has_subsequence
complete_now n ws e = rw e

-- One wait, for the tuple that sent it and for any other.
follow :
    (t t' : NominationTracker) (b a : Text) (w : ℤ) (es : List Event) (answer : Bool)
    → IsConsistent t
    → Observed t b w t' answer
    → is_empty t.selected ≡ true
    → has_subsequence (missing t' a) (waits_of a es)
      ≡ has_subsequence (missing t a) (waits_of a (observes b w ∷ es))
unfolding waits_of
follow t t' b a w es answer v o free = elim (Bool-cases (text_eq b a)) [
  | inl e ↦
      let moved : next_wait t' a ≡ advance (next_wait t a) w = ground (arith, o.progress a) in
      rw (moved, e) (missing_step (next_wait t a) w (waits_of a es) (v.bounded a))
  | inr e ↦
      let moved : next_wait t' a ≡ next_wait t a = ground (arith, o.progress a) in
      rw (moved, e) refl
]

observe-Stepped :
    (t : NominationTracker) (b : Text) (w : ℤ) (es : List Event)
    → IsConsistent t
    → is_empty b ≡ false
    → (t' : NominationTracker) × (step t (observes b w) ≡ some t') × Stepped t (observes b w) es t'
observe-Stepped t b w es v named = stepped (observe-Observed t v b w)
  where
    stepped :
        (t' : NominationTracker) × (answer : Bool) × (observe t b w ≡ some (t', answer))
          × Observed t b w t' answer
        → (t' : NominationTracker) × (step t (observes b w) ≡ some t')
          × Stepped t (observes b w) es t'
    stepped (t', answer, e, o) = (
      t',
      unfold step in rw e,
      record {
        consistent = observe-IsConsistent t t' b w answer v named o;
        kept = λ h. ground (arith, o.selection, o.answered);
        still_active = unfold activated in ground (arith, o.same_active);
        follows = λ free a. follow t t' b a w es answer v o free;
      },
    )

activate-Stepped :
    (t : NominationTracker) (order : List Text) (es : List Event)
    → IsConsistent t
    → Visits t order
    → (t' : NominationTracker) × (step t (activates order) ≡ some t')
      × Stepped t (activates order) es t'
activate-Stepped t order es v c = stepped (activate-Activated t order v c)
  where
    stepped :
        (t' : NominationTracker) × (activate t order ≡ some t')
          × IsConsistent t'
          × Activated t order t'
        → (t' : NominationTracker) × (step t (activates order) ≡ some t')
          × Stepped t (activates order) es t'
    stepped (t', e, v', r) = (
      t',
      unfold step in e,
      record {
        consistent = v';
        kept = r.kept;
        still_active = unfold activated in ground (arith, r.now_active);
        follows = λ free a. unfold waits_of in rw (r.progress a) refl;
      },
    )

step-Stepped :
    (t : NominationTracker) (e : Event) (es : List Event)
    → IsConsistent t
    → Admissible t e
    → (t' : NominationTracker) × (step t e ≡ some t') × Stepped t e es t'
step-Stepped t (observes b w) es v h = observe-Stepped t b w es v h
step-Stepped t (activates order) es v h = activate-Stepped t order es v h

-- A whole run.
pub record Ran (t : NominationTracker) (es : List Event) (t' : NominationTracker) : Type 0 where
  pub consistent : IsConsistent t'
  pub kept : is_empty t.selected ≡ false → t'.selected ≡ t.selected
  pub sound :
      is_empty t.selected ≡ true
      → is_empty t'.selected ≡ false
      → (has_subsequence (missing t t'.selected) (waits_of t'.selected es) ≡ true)
        × ((activated es || t.active) ≡ true)
  pub complete :
      is_empty t.selected ≡ true
      → (activated es || t.active) ≡ true
      → (a : Text) → has_subsequence (missing t a) (waits_of a es) ≡ true
      → is_empty t'.selected ≡ false

incomplete_now : (n : ℕ) → n < 5 → has_subsequence (drop n nomination_wait_sequence) [] ≡ false
unfolding has_subsequence
incomplete_now zero h = refl
incomplete_now (suc zero) h = refl
incomplete_now (suc (suc zero)) h = refl
incomplete_now (suc (suc (suc zero))) h = refl
incomplete_now (suc (suc (suc (suc zero)))) h = refl
incomplete_now (suc (suc (suc (suc (suc n))))) h = absurd (omega arith)

Ran-nil : (t : NominationTracker) → IsConsistent t → Ran t [] t
unfolding waits_of activated
Ran-nil t v = record {
  consistent = v;
  kept = λ h. refl;
  sound = λ h g. cc;
  complete = λ free on a h.
      absurd (ground (arith, incomplete_now (next_wait t a) (v.nothing_pending on free a)));
}

Ran-cons :
    (t t' t'' : NominationTracker) (e : Event) (es : List Event)
    → Stepped t e es t'
    → Ran t' es t''
    → Ran t (e ∷ es) t''
Ran-cons t t' t'' e es s r = record {
  consistent = r.consistent;
  kept = λ h. r.kept (rw (s.kept h) h) ∙ s.kept h;
  sound = λ free won. elim (Bool-cases (is_empty t'.selected)) [
    | inl open' ↦ (
      sym (s.follows free t''.selected) ∙ (r.sound open' won).0,
      s.still_active ∙ (r.sound open' won).1,
    )
    | inr chosen ↦
        let same : t''.selected ≡ t'.selected = r.kept chosen in
        (
          rw same (
              sym (s.follows free t'.selected)
              ∙ complete_now (next_wait t' t'.selected) (waits_of t'.selected es)
                  (s.consistent.winner chosen)),
          s.still_active ∙ ground (arith, s.consistent.started chosen),
        )
  ];
  complete = λ free on a h. elim (Bool-cases (is_empty t'.selected)) [
    | inl open' ↦ r.complete open' (sym s.still_active ∙ on) a (s.follows free a ∙ h)
    | inr chosen ↦ rw (r.kept chosen) chosen
  ];
}

-- A run of admissible events from a consistent tracker does not panic, and does what `Ran` says.
pub run-Ran :
    (t : NominationTracker) (es : List Event)
    → IsConsistent t
    → AdmissibleRun t es
    → (t' : NominationTracker) × (run t es ≡ some t') × Ran t es t'
unfolding run
run-Ran t [] v ok = (t, refl, Ran-nil t v)
run-Ran t (e ∷ es) v ok =
    let (t', at, s) = step-Stepped t e es v ok.0 in
    let (t'', later, r) = run-Ran t' es s.consistent (ok.1 t' at) in
    (t'', rw (at, run) later, Ran-cons t t' t'' e es s r)

-- A run of admissible events from a new tracker does not panic. When it ends with a selected tuple,
-- that tuple has sent the whole wait sequence in order, perhaps with other waits in between, and the
-- tracker was activated; and when both hold of any tuple, the run ends with a selected tuple.
pub run-selects :
    (es : List Event) (a : Text)
    → AdmissibleRun new_nomination_tracker es
    → (t : NominationTracker) × (run new_nomination_tracker es ≡ some t)
      × ((is_empty t.selected
            || (activated es && has_subsequence nomination_wait_sequence (waits_of t.selected es)))
          ≡ true)
      × ((not (activated es && has_subsequence nomination_wait_sequence (waits_of a es))
            || not (is_empty t.selected))
          ≡ true)
unfolding new_nomination_tracker next_wait lookup is_empty
run-selects es a ok =
    let (t, at, r) = run-Ran new_nomination_tracker es new-IsConsistent ok in
    (
      t,
      at,
      ground (arith, r.sound refl),
      elim (Bool-cases (activated es)) [
        | inr off ↦ rw off refl
        | inl on ↦ ground (arith, r.complete refl (rw on refl) a, on)
      ],
    )

-- No admissible events change the selection of a consistent tracker that has selected a tuple.
pub run_keeps_selected :
    (t : NominationTracker) (es : List Event) (t' : NominationTracker)
    → IsConsistent t
    → AdmissibleRun t es
    → is_empty t.selected ≡ false
    → run t es ≡ some t'
    → t'.selected ≡ t.selected
run_keeps_selected t es t' v ok h e =
    let (t'', at, r) = run-Ran t es v ok in ground (arith, at, e, r.kept h)
