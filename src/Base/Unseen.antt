-- ===== src/Base/Unseen.antt =====
-- The client's way to gather texts without repeats: a map of those seen, and the list so far.
use mathlib.Core.Path.{◌≡◌, refl, sym, ◌∙◌}
use mathlib.Core.Logic.{inl, inr}
use mathlib.Core.Bool.{Bool, true, false, not, ◌&&◌, ◌||◌}
use mathlib.Core.List.{List, [], ◌∷◌, ◌++◌, append-nil, append_assoc, Sublistᴰ}
use native.Mathlib.Omega.{arith}
use teleport_client.Base.Tests.{if◌then◌else◌, Bool-cases}
use teleport_client.Base.Strings.{Text, is_empty, contains, text_eq→eq, text_eq_refl}

pub record Gathered : Type 0 where
  pub seen : List Text
  pub out : List Text

-- `if x == "" || seen[x] { return }; seen[x] = true; out = append(out, x)`.
unfoldable pub append_unseen : Gathered → Text → Gathered
append_unseen g x =
    if is_empty x || contains g.seen x
    then g
    else record { seen = x ∷ g.seen; out = g.out ++ x ∷ [] }

unfoldable pub append_all : Gathered → List Text → Gathered
append_all g [] = g
append_all g (x ∷ xs) = append_all (append_unseen g x) xs

-- The texts of a list that are not empty and not in `seen`, each at its first place.
unfoldable pub fresh : List Text → List Text → List Text
fresh seen [] = []
fresh seen (x ∷ xs) = elim (is_empty x || contains seen x) [
  | true ↦ fresh seen xs
  | false ↦ x ∷ fresh (x ∷ seen) xs
]

unfoldable pub distinct : List Text → Bool
distinct [] = true
distinct (x ∷ xs) = not (contains xs x) && distinct xs

pub fresh-skip :
    (seen : List Text) (x : Text) (xs : List Text)
    → (is_empty x || contains seen x) ≡ true
    → fresh seen (x ∷ xs) ≡ fresh seen xs
unfolding fresh
fresh-skip seen x xs e = rw (e, fresh)

pub fresh-take :
    (seen : List Text) (x : Text) (xs : List Text)
    → (is_empty x || contains seen x) ≡ false
    → fresh seen (x ∷ xs) ≡ x ∷ fresh (x ∷ seen) xs
unfolding fresh
fresh-take seen x xs e = rw (e, fresh)

pub append_all-fresh :
    (g : Gathered) (xs : List Text) → (append_all g xs).out ≡ g.out ++ fresh g.seen xs
unfolding append_all append_unseen
append_all-fresh g [] = unfold fresh in sym (append-nil g.out)
append_all-fresh g (x ∷ xs) = elim (Bool-cases (is_empty x || contains g.seen x)) [
  | inl e ↦ rw (fresh-skip g.seen x xs e, e, append_all) (append_all-fresh g xs)
  | inr e ↦
      rw (fresh-take g.seen x xs e, e, append_all)
        (append_all-fresh (record { seen = x ∷ g.seen; out = g.out ++ x ∷ [] }) xs
          ∙ append_assoc g.out (x ∷ []) (fresh (x ∷ g.seen) xs))
]

-- `fresh` keeps exactly the texts that are not empty and not seen.
pub contains-fresh :
    (seen xs : List Text) (a : Text)
    → contains (fresh seen xs) a ≡ (contains xs a && (not (is_empty a) && not (contains seen a)))
contains-fresh seen [] a = unfold fresh contains in refl
contains-fresh seen (x ∷ xs) a = elim (Bool-cases (is_empty x || contains seen x)) [
  | inl e ↦ rw (fresh-skip seen x xs e) (contains-fresh seen xs a ∙ skipped e)
  | inr e ↦ rw (fresh-take seen x xs e) (taken e (contains-fresh (x ∷ seen) xs a))
]
  where
    skipped :
        (is_empty x || contains seen x) ≡ true
        → (contains xs a && (not (is_empty a) && not (contains seen a)))
          ≡ (contains (x ∷ xs) a && (not (is_empty a) && not (contains seen a)))
    skipped e = unfold contains in ground (arith, text_eq→eq x a)

    taken :
        (is_empty x || contains seen x) ≡ false
        → contains (fresh (x ∷ seen) xs) a
          ≡ (contains xs a && (not (is_empty a) && not (contains (x ∷ seen) a)))
        → contains (x ∷ fresh (x ∷ seen) xs) a
          ≡ (contains (x ∷ xs) a && (not (is_empty a) && not (contains seen a)))
    taken e ih = unfold contains in ground (arith, text_eq→eq x a, ih)

pub distinct-fresh : (seen xs : List Text) → distinct (fresh seen xs) ≡ true
distinct-fresh seen [] = unfold fresh distinct in refl
distinct-fresh seen (x ∷ xs) = elim (Bool-cases (is_empty x || contains seen x)) [
  | inl e ↦ rw (fresh-skip seen x xs e) (distinct-fresh seen xs)
  | inr e ↦ rw (fresh-take seen x xs e) (taken (distinct-fresh (x ∷ seen) xs))
]
  where
    taken : distinct (fresh (x ∷ seen) xs) ≡ true → distinct (x ∷ fresh (x ∷ seen) xs) ≡ true
    taken ih = unfold distinct in ground (arith, ih, absent)
      where
        absent : contains (fresh (x ∷ seen) xs) x ≡ false
        absent =
            contains-fresh (x ∷ seen) xs x ∙ (unfold contains in ground (arith, text_eq_refl x))

pub fresh-Sublist : (seen xs : List Text) → Sublistᴰ (fresh seen xs) xs
fresh-Sublist seen [] = unfold fresh in Sublistᴰ.slnil
fresh-Sublist seen (x ∷ xs) = elim (Bool-cases (is_empty x || contains seen x)) [
  | inl e ↦ rw (fresh-skip seen x xs e) (Sublistᴰ.cons (fresh-Sublist seen xs))
  | inr e ↦ rw (fresh-take seen x xs e) (Sublistᴰ.cons-cons refl (fresh-Sublist (x ∷ seen) xs))
]

pub contains-append :
    (xs ys : List Text) (a : Text) → contains (xs ++ ys) a ≡ (contains xs a || contains ys a)
unfolding contains
contains-append [] ys a = refl
contains-append (x ∷ xs) ys a = ground (arith, contains-append xs ys a)
