-- ===== src/Base/Sort.antt =====
-- `sort.SliceStable`.
use mathlib.Core.List.{List, [], ◌∷◌}
use teleport_client.Base.Tests.{if◌then◌else◌}
use teleport_client.Base.Int.{ℤ, ltb_ℤ}

-- `sort.SliceStable` by a score: an item goes before the first one that scores more, or as much.
module _ {A : Type 0} (score : A → ℤ) where
  unfoldable pub insert_by_score : A → List A → List A
  insert_by_score x [] = x ∷ []
  insert_by_score x (y ∷ ys) =
      let rest = insert_by_score x ys in if ltb_ℤ (score y) (score x) then y ∷ rest else x ∷ y ∷ ys

  unfoldable pub sort_by_score : List A → List A
  unfolding insert_by_score
  sort_by_score [] = []
  sort_by_score (x ∷ xs) = insert_by_score x (sort_by_score xs)
