-- ===== src/Probes/Ranks.antt =====
-- The loop over the responses keeps the least rank.
use teleport_client.Base.{
  ℕ, ◌≡◌, refl, sym, ap, subst, ◌∙◌, Bool, true, false, Option, none, some, is_some, List, [], ◌∷◌,
  ◌++◌, map, min, Text, ◌==◌, if◌then◌else◌, lookup, arith,
}
use teleport_client.Probes.{Targets, ProbeEvent, response, addr_at, improve, probe_loop}

-- The lesser of two ranks, where there is one.
abbrev pub lesser : Option ℕ → Option ℕ → Option ℕ
lesser none p = p
lesser (some a) none = some a
lesser (some a) (some b) = some (min a b)

-- The least rank among the remotes that are targets.
unfoldable pub least_rank : List (Text × ℕ) → List Text → Option ℕ
least_rank ranks [] = none
least_rank ranks (remote ∷ remotes) = lesser (lookup remote ranks) (least_rank ranks remotes)

abbrev pub address_of : Targets → Text → Option ℕ → Text
address_of t guess none = guess
address_of t guess (some rank) = addr_at t rank

improve-lesser : (best : Option ℕ) (rank : ℕ) → improve best rank ≡ lesser best (some rank)
improve-lesser none rank = refl
improve-lesser (some best) rank = ground arith

lesser_assoc : (o p q : Option ℕ) → lesser (lesser o p) q ≡ lesser o (lesser p q)
lesser_assoc none p q = refl
lesser_assoc (some a) none q = refl
lesser_assoc (some a) (some b) none = refl
lesser_assoc (some a) (some b) (some c) = ap some (omega arith)

lesser_zero : (o p : Option ℕ) → lesser o (lesser (some 0) p) ≡ some 0
lesser_zero none none = refl
lesser_zero none (some b) = ap some (omega arith)
lesser_zero (some a) none = ap some (omega arith)
lesser_zero (some a) (some b) = ap some (omega arith)

module _ (t : Targets) (guess : Text) (tail : List ProbeEvent) where
  -- The tail ends the loop with the best target so far.
  abbrev pub Ends : Type 0
  Ends =
      (best : Option ℕ)
      → probe_loop t guess best (is_some best) tail ≡ some (address_of t guess best)

  pub probe_loop-least :
      Ends
      → (remotes : List Text) (best : Option ℕ)
      → probe_loop t guess best (is_some best) (map response remotes ++ tail)
        ≡ some (address_of t guess (lesser best (least_rank t.rank_by_remote remotes)))
  unfolding probe_loop least_rank
  probe_loop-least ends [] best =
      ends best ∙ ap (λ o. some (address_of t guess o)) (right_none best)
    where
      right_none : (o : Option ℕ) → o ≡ lesser o none
      right_none none = refl
      right_none (some a) = refl
  probe_loop-least ends (remote ∷ remotes) best =
      by_rank (lookup remote t.rank_by_remote) (λ b. probe_loop-least ends remotes b)
    where
      by_zero :
          (rank : ℕ) (is_zero : Bool)
          → (rank == 0) ≡ is_zero
          → probe_loop t guess (improve best rank) true (map response remotes ++ tail)
            ≡ some (
                address_of t guess
                  (lesser (improve best rank) (least_rank t.rank_by_remote remotes)))
          → (if is_zero
              then some (addr_at t rank)
              else probe_loop t guess (improve best rank) true (map response remotes ++ tail))
            ≡ some (
                address_of t guess
                  (lesser best (lesser (some rank) (least_rank t.rank_by_remote remotes))))
      by_zero rank true e rest =
          let zero_rank : rank ≡ 0 = ground (arith, e) in
          rw zero_rank (
            ap (λ o. some (address_of t guess o))
              (sym (lesser_zero best (least_rank t.rank_by_remote remotes))))
      by_zero rank false e rest =
          rest
          ∙ ap (λ o. some (address_of t guess o))
              (ap (λ o. lesser o (least_rank t.rank_by_remote remotes)) (improve-lesser best rank)
                ∙ lesser_assoc best (some rank) (least_rank t.rank_by_remote remotes))

      is_some-improve : (o : Option ℕ) (rank : ℕ) → is_some (improve o rank) ≡ true
      is_some-improve none rank = refl
      is_some-improve (some b) rank = ground arith

      by_rank :
          (o : Option ℕ)
          → ((b : Option ℕ)
              → probe_loop t guess b (is_some b) (map response remotes ++ tail)
                ≡ some (address_of t guess (lesser b (least_rank t.rank_by_remote remotes))))
          → (elim o [
            | none ↦ probe_loop t guess best (is_some best) (map response remotes ++ tail)
            | some rank ↦
                let better =
                  probe_loop t guess (improve best rank) true (map response remotes ++ tail) in
                if rank == 0 then some (addr_at t rank) else better
          ])
            ≡ some
                (address_of t guess (lesser best (lesser o (least_rank t.rank_by_remote remotes))))
      by_rank none again = again best
      by_rank (some rank) again = by_zero rank (rank == 0) refl (
          subst
            (λ g.
              probe_loop t guess (improve best rank) g (map response remotes ++ tail)
              ≡ some (
                  address_of t guess
                    (lesser (improve best rank) (least_rank t.rank_by_remote remotes))))
            (is_some-improve best rank) (again (improve best rank)))
