-- ===== src/Candidates/Sorting.antt =====
-- The stable sort by a score: a permutation, in order, that keeps the order of equal scores.
use mathlib.Core.List.{Perm}
use mathlib.Core.List.Perm
use teleport_client.Base.{
  ◌≡◌, refl, ◌∙◌, Bool, true, false, not, ◌&&◌, List, [], ◌∷◌, ℤ, ltb_ℤ, keep, arith, Bool-cases,
  inl, inr, insert_by_score, sort_by_score,
}

module _ {A : Type 0} (score : A → ℤ) where
  -- No item scores less than one before it.
  unfoldable pub ordered : List A → Bool
  ordered [] = true
  ordered (x ∷ []) = true
  ordered (x ∷ y ∷ ys) = not (ltb_ℤ (score y) (score x)) && ordered (y ∷ ys)

  insert-perm : (x : A) (xs : List A) → Perm (insert_by_score score x xs) (x ∷ xs)
  insert-perm x [] = unfold insert_by_score in Perm.refl (x ∷ [])
  insert-perm x (y ∷ ys) = elim (Bool-cases (ltb_ℤ (score y) (score x))) [
    | inl e ↦ later e (insert-perm x ys)
    | inr e ↦ here e
  ]
    where
      later :
          ltb_ℤ (score y) (score x) ≡ true
          → Perm (insert_by_score score x ys) (x ∷ ys)
          → Perm (insert_by_score score x (y ∷ ys)) (x ∷ y ∷ ys)
      later e ih = unfold insert_by_score in rw e (Perm.trans (Perm.cons y ih) (Perm.swap x y ys))

      here :
          ltb_ℤ (score y) (score x) ≡ false → Perm (insert_by_score score x (y ∷ ys)) (x ∷ y ∷ ys)
      here e = unfold insert_by_score in rw e (Perm.refl (x ∷ y ∷ ys))

  pub sort-perm : (xs : List A) → Perm (sort_by_score score xs) xs
  sort-perm [] = unfold sort_by_score in Perm.refl []
  sort-perm (x ∷ xs) = step (sort-perm xs)
    where
      step : Perm (sort_by_score score xs) xs → Perm (sort_by_score score (x ∷ xs)) (x ∷ xs)
      step ih =
          unfold sort_by_score in
          Perm.trans (insert-perm x (sort_by_score score xs)) (Perm.cons x ih)

  insert-ordered :
      (x : A) (xs : List A) → ordered xs ≡ true → ordered (insert_by_score score x xs) ≡ true
  unfolding insert_by_score ordered
  insert-ordered x [] h = refl
  insert-ordered x (y ∷ []) h = ground arith
  insert-ordered x (y ∷ z ∷ ys) h = ground (arith, insert-ordered x (z ∷ ys))

  pub sort-ordered : (xs : List A) → ordered (sort_by_score score xs) ≡ true
  unfolding sort_by_score
  sort-ordered [] = unfold ordered in refl
  sort-ordered (x ∷ xs) = insert-ordered x (sort_by_score score xs) (sort-ordered xs)

  abbrev pub same_score : ℤ → A → Bool
  same_score k x = not (ltb_ℤ (score x) k) && not (ltb_ℤ k (score x))

  insert-stable :
      (k : ℤ) (x : A) (xs : List A)
      → keep (same_score k) (insert_by_score score x xs) ≡ keep (same_score k) (x ∷ xs)
  unfolding insert_by_score keep
  insert-stable k x [] = refl
  insert-stable k x (y ∷ ys) = ground (arith, insert-stable k x ys)

  pub sort-stable :
      (k : ℤ) (xs : List A) → keep (same_score k) (sort_by_score score xs) ≡ keep (same_score k) xs
  unfolding sort_by_score keep
  sort-stable k [] = refl
  sort-stable k (x ∷ xs) =
      insert-stable k x (sort_by_score score xs) ∙ ground (arith, sort-stable k xs)
