-- ===== src/Tests/Nominating.antt =====
-- nomination.go, the tracker, on a concrete run: a tuple that sends the sequence, then the activation.
use teleport_client.Base.{
  ◌≡◌, refl, true, false, not, ◌&&◌, ◌||◌, some, List, [], ◌∷◌, Text, codes, pos, is_empty, arith,
  text_eq, lookup,
}
use teleport_client.Nomination.{
  NominationTracker, new_nomination_tracker, Event, observes, activates, run, next_wait,
  nomination_wait_sequence,
}
use teleport_client.Nomination.Consistency.{IsConsistent}
use teleport_client.Nomination.Selection.{
  AdmissibleRun, has_subsequence, waits_of, activated, run-selects,
}

abbrev peer : Text
peer = codes "a"

abbrev waits : List Event
waits =
    activates []
    ∷ observes peer (pos 2000)
    ∷ observes peer (pos 1000)
    ∷ observes peer (pos 500)
    ∷ observes peer (pos 250)
    ∷ observes peer (pos 125)
    ∷ []

named : is_empty peer ≡ false
named = unfold is_empty in refl

waits-AdmissibleRun : AdmissibleRun new_nomination_tracker waits
waits-AdmissibleRun = (
  record {
    named = refl;
    complete = λ a h. absurd (unfold new_nomination_tracker next_wait lookup in omega (arith, h));
  },
  λ t1 e1.
      (named, λ t2 e2. (named, λ t3 e3. (named, λ t4 e4. (named, λ t5 e5. (named, λ t6 e6. tt))))),
)

run-selects_example :
    (t : NominationTracker) × (run new_nomination_tracker waits ≡ some t)
    × ((is_empty t.selected
          || (activated waits
              && has_subsequence nomination_wait_sequence (waits_of t.selected waits)))
        ≡ true)
    × ((not (activated waits && has_subsequence nomination_wait_sequence (waits_of peer waits))
          || not (is_empty t.selected))
        ≡ true)
run-selects_example = run-selects waits peer waits-AdmissibleRun

-- A tracker that has selected the tuple.
abbrev chosen : NominationTracker
chosen = record { pairs = (peer, 5) ∷ []; active = true; selected = peer; selected_closed = true }

chosen-IsConsistent : IsConsistent chosen
unfolding next_wait lookup is_empty text_eq
chosen-IsConsistent = record {
  closed = refl;
  started = λ h. refl;
  bounded = λ a. ground arith;
  nothing_pending = λ h free a. cc;
  winner = λ h. refl;
}
