-- ===== src/Nomination/Progress.antt =====
-- One call of the tracker: what it does to each tuple's progress and to the selection.
use teleport_client.Base.{
  ◌<◌, ◌≡◌, refl, sym, ◌∙◌, true, false, some, List, [], ◌∷◌, Text, ◌==◌, arith, is_empty,
  text_eq→eq, Bool-cases, inl, inr, contains,
}
use teleport_client.Nomination.{
  sequence_length, NominationTracker, next_wait, select, select_completed, activate,
}
use teleport_client.Nomination.Consistency.{Activated, IsConsistent, all_named}

select_completed-Activated :
    (t : NominationTracker) (order : List Text)
    → t.active ≡ true
    → is_empty t.selected ≡ true
    → t.selected_closed ≡ false
    → all_named order ≡ true
    → (t' : NominationTracker) × (select_completed t order ≡ some t') × Activated t order t'
select_completed-Activated t [] act free open' named = (
  t,
  unfold select_completed in refl,
  record {
    now_active = act;
    progress = λ a. refl;
    closing = ground arith;
    kept = λ h. refl;
    winner = λ h. cc;
    none_left = λ h a c. unfold contains in cc;
  },
)
select_completed-Activated t (b ∷ order) act free open' named =
    elim (Bool-cases (next_wait t b == sequence_length)) [
      | inl done ↦ (
        record t { selected = b; selected_closed = true },
        unfold select_completed select in ground arith,
        record {
          now_active = act;
          progress = λ a. unfold next_wait in refl;
          closing = ground arith;
          kept = λ h. cc;
          winner = λ h. ground arith;
          none_left = λ h a c. absurd (ground arith);
        },
      )
      | inr short ↦ later short (select_completed-Activated t order act free open' (ground arith))
    ]
  where
    later :
        (next_wait t b == sequence_length) ≡ false
        → (t' : NominationTracker) × (select_completed t order ≡ some t') × Activated t order t'
        → (t' : NominationTracker) × (select_completed t (b ∷ order) ≡ some t')
          × Activated t (b ∷ order) t'
    later short (t', e, r) = (
      t',
      unfold select_completed in rw short e,
      record {
        now_active = r.now_active;
        progress = r.progress;
        closing = r.closing;
        kept = r.kept;
        winner = r.winner;
        none_left = λ h a c. unfold contains in ground (arith, text_eq→eq b a, r.none_left h a);
      },
    )

-- The order of a visit of the map: every tuple that has made progress is in it, and keys have names.
pub record Visits (t : NominationTracker) (order : List Text) : Type 0 where
  pub named : all_named order ≡ true
  pub complete : (a : Text) → 0 < next_wait t a → contains order a ≡ true

pub activate-Activated :
    (t : NominationTracker) (order : List Text)
    → IsConsistent t
    → Visits t order
    → (t' : NominationTracker) × (activate t order ≡ some t')
      × IsConsistent t'
      × Activated t order t'
activate-Activated t order v c = elim (Bool-cases t.active) [
  | inl on ↦ (
    t,
    unfold activate in ground arith,
    v,
    record {
      now_active = on;
      progress = λ a. refl;
      closing = v.closed;
      kept = λ h. refl;
      winner = v.winner;
      none_left = λ h a m e. absurd (omega (arith, v.nothing_pending on h a));
    },
  )
  | inr off ↦ started off (
      select_completed-Activated (record t { active = true }) order refl (ground (arith, v.started))
        (ground (arith, v.closed, v.started)) c.named)
]
  where
    started :
        t.active ≡ false
        → (t' : NominationTracker) × (select_completed (record t { active = true }) order ≡ some t')
          × Activated (record t { active = true }) order t'
        → (t' : NominationTracker) × (activate t order ≡ some t')
          × IsConsistent t'
          × Activated t order t'
    started off (t', e, r) =
        let same : (a : Text) → next_wait (record t { active = true }) a ≡ next_wait t a =
          λ a. unfold next_wait in refl in
        (
          t',
          unfold activate in rw off e,
          record {
            closed = r.closing;
            started = λ h. r.now_active;
            bounded = λ a. omega (arith, r.progress a, same a, v.bounded a);
            nothing_pending = λ act free a.
                ground (arith, r.progress a, same a, v.bounded a, c.complete a, r.none_left free a);
            winner = λ h. omega (arith, r.progress t'.selected, r.winner h);
          },
          record {
            now_active = r.now_active;
            progress = λ a. r.progress a ∙ same a;
            closing = r.closing;
            kept = λ h. r.kept h;
            winner = λ h. sym (same t'.selected) ∙ r.winner h;
            none_left = λ h a m e. r.none_left h a m (same a ∙ e);
          },
        )
