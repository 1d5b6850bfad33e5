-- ===== src/Redaction/Replacing.antt =====
-- A text that is replaced by a word in square brackets does not occur in the result, and no other text
-- that is foreign to the word comes to occur.
use teleport_client.Base.{
  ℕ, zero, suc, ◌-◌, ◌≡◌, refl, ap, Bool, true, false, not, ◌&&◌, ◌||◌, [], ◌∷◌, ◌++◌, Text, ◌==◌,
  length, has_prefix, has_infix, replace_from, arith, Bool-cases, inl, inr,
}

unfoldable pub lacks : ℕ → Text → Bool
lacks c [] = true
lacks c (d ∷ s) = not (d == c) && lacks c s

has_prefix-append :
    (p w s : Text) → lacks b']' p ≡ true → has_prefix p (w ++ b']' ∷ s) ≡ has_prefix p w
unfolding has_prefix lacks
has_prefix-append [] w s h = ground arith
has_prefix-append (d ∷ p) [] s h = ground (arith, h)
has_prefix-append (d ∷ p) (c ∷ w) s h = ground (arith, h, has_prefix-append p w s)

has_infix-append :
    (d : ℕ) (p w s : Text)
    → lacks b']' (d ∷ p) ≡ true
    → has_infix (d ∷ p) (w ++ b']' ∷ s) ≡ (has_infix (d ∷ p) w || has_infix (d ∷ p) s)
unfolding has_infix
has_infix-append d p [] s h = ground (arith, h, has_prefix-append (d ∷ p) [] s h)
has_infix-append d p (c ∷ w) s h =
    rw (has_prefix-append (d ∷ p) (c ∷ w) s h, has_infix-append d p w s h) (ground arith)

append_one : (w s : Text) (c : ℕ) → (w ++ c ∷ []) ++ s ≡ w ++ c ∷ s
append_one [] s c = refl
append_one (d ∷ w) s c = ap (◌∷◌ d) (append_one w s c)

module _ (word : Text) where
  abbrev pub marker : Text
  marker = b'[' ∷ (word ++ b']' ∷ [])

  -- A text that is not empty, has no square bracket and is no part of the word.
  unfoldable pub is_foreign : Text → Bool
  unfolding has_infix lacks
  is_foreign [] = false
  is_foreign (d ∷ p) = lacks b'[' (d ∷ p) && (lacks b']' (d ∷ p) && not (has_infix (d ∷ p) word))

  pub has_infix-marker :
      (p s : Text) → is_foreign p ≡ true → has_infix p (marker ++ s) ≡ has_infix p s
  unfolding is_foreign
  has_infix-marker [] s h = cc
  has_infix-marker (d ∷ p) s h = ground (arith, h, has_infix_open, has_infix-append d p word s)
    where
      has_infix_open : has_infix (d ∷ p) (marker ++ s) ≡ has_infix (d ∷ p) (word ++ b']' ∷ s)
      has_infix_open = unfold has_infix lacks in rw (append_one word s b']') (ground (arith, h))

  -- A match in front of the result ends before the first replacement.
  has_prefix-replace_from :
      (p old s : Text)
      → lacks b'[' p ≡ true
      → has_prefix p (replace_from old marker 0 s) ≡ true
      → has_prefix p s ≡ true
  unfolding has_prefix lacks replace_from
  has_prefix-replace_from [] old s h e = ground arith
  has_prefix-replace_from (d ∷ p) old [] h e = e
  has_prefix-replace_from (d ∷ p) old (c ∷ s) h e = elim (Bool-cases (has_prefix old (c ∷ s))) [
    | inl m ↦ ground (arith, m, h, e)
    | inr m ↦ ground (arith, m, h, e, has_prefix-replace_from p old s)
  ]

  foreign_lacks : (p : Text) → is_foreign p ≡ true → lacks b'[' p ≡ true
  unfolding is_foreign
  foreign_lacks [] h = cc
  foreign_lacks (d ∷ p) h = ground (arith, h)

  pub has_infix-foreign_empty : (p : Text) → is_foreign p ≡ true → has_infix p [] ≡ false
  unfolding is_foreign has_infix
  has_infix-foreign_empty [] h = cc
  has_infix-foreign_empty (d ∷ p) h = refl

  -- A replacement makes no foreign text occur.
  pub has_infix-replace_from :
      (p old : Text) (skip : ℕ) (s : Text)
      → is_foreign p ≡ true
      → has_infix p s ≡ false
      → has_infix p (replace_from old marker skip s) ≡ false
  unfolding has_infix replace_from
  has_infix-replace_from p old skip [] h e = has_infix-foreign_empty p h
  has_infix-replace_from p old (suc skip) (c ∷ s) h e =
      has_infix-replace_from p old skip s h (ground (arith, e))
  has_infix-replace_from p old zero (c ∷ s) h e = elim (Bool-cases (has_prefix old (c ∷ s))) [
    | inl m ↦
        rw (m, has_infix-marker p (replace_from old marker (length old - 1) s) h)
          (has_infix-replace_from p old (length old - 1) s h (ground (arith, e)))
    | inr m ↦ ground (
      arith,
      e,
      m,
      has_infix-replace_from p old zero s h,
      has_prefix-replace_from p old (c ∷ s) (foreign_lacks p h),
    )
  ]

  -- The text that is replaced no longer occurs.
  pub has_infix-replace_from_itself :
      (p : Text) (skip : ℕ) (s : Text)
      → is_foreign p ≡ true
      → has_infix p (replace_from p marker skip s) ≡ false
  unfolding has_infix replace_from
  has_infix-replace_from_itself p skip [] h = has_infix-foreign_empty p h
  has_infix-replace_from_itself p (suc skip) (c ∷ s) h = has_infix-replace_from_itself p skip s h
  has_infix-replace_from_itself p zero (c ∷ s) h = elim (Bool-cases (has_prefix p (c ∷ s))) [
    | inl m ↦
        rw (m, has_infix-marker p (replace_from p marker (length p - 1) s) h)
          (has_infix-replace_from_itself p (length p - 1) s h)
    | inr m ↦ ground (
      arith,
      m,
      has_infix-replace_from_itself p zero s h,
      has_prefix-replace_from p p (c ∷ s) (foreign_lacks p h),
    )
  ]
