-- ===== src/Base/Split.antt =====
-- `strings.Split` and `strings.Cut` at one byte, and the decimal readers of `strconv`.
use Prim.Native.Nat.{ℕ, ◌+◌, ◌-◌, ◌*◌}
use mathlib.Core.Path.{◌≡◌, refl}
use mathlib.Core.Bool.{Bool, false, ◌&&◌, ◌||◌}
use mathlib.Core.List.{List, [], ◌∷◌, ◌++◌}
use mathlib.Core.Option.{Option, none, some}
use native.Mathlib.Omega.{arith}
use mathlib.Core.Logic.{inl, inr}
use teleport_client.Base.Tests.{Bool-cases, ◌==◌, leb, if◌then◌else◌}
use teleport_client.Base.Strings.{Text}
use teleport_client.Base.Int.{ℤ, pos, negsuc}

abbrev pub push_first : ℕ → List Text → List Text
push_first c [] = (c ∷ []) ∷ []
push_first c (w ∷ ws) = (c ∷ w) ∷ ws

unfoldable pub split_on : ℕ → Text → List Text
split_on sep [] = [] ∷ []
split_on sep (c ∷ s) =
    let rest = split_on sep s in if c == sep then [] ∷ rest else push_first c rest

abbrev pub push_fst : ℕ → Option (Text × Text) → Option (Text × Text)
push_fst c none = none
push_fst c (some (before, after)) = some (c ∷ before, after)

-- `before, after, found := strings.Cut(s, sep)`, `none` when not found.
unfoldable pub cut : ℕ → Text → Option (Text × Text)
cut sep [] = none
cut sep (c ∷ s) = let rest = cut sep s in if c == sep then some ([], s) else push_fst c rest

-- `strings.IndexByte(s, c) >= 0`.
unfoldable pub has_byte : ℕ → Text → Bool
has_byte c [] = false
has_byte c (d ∷ s) = d == c || has_byte c s

abbrev is_digit : ℕ → Bool
is_digit c = leb 48 c && leb c 57

unfoldable pub digits_from : ℕ → Text → Option ℕ
digits_from acc [] = some acc
digits_from acc (c ∷ s) =
    let rest = digits_from (acc * 10 + (c - 48)) s in if is_digit c then rest else none

abbrev pub at_most : ℕ → Option ℕ → Option ℕ
at_most bound none = none
at_most bound (some n) = if leb n bound then some n else none

-- A decimal number without a sign, at most `bound`.
unfoldable pub parse_decimal : ℕ → Text → Option ℕ
unfolding digits_from
parse_decimal bound [] = none
parse_decimal bound (c ∷ s) = at_most bound (digits_from 0 (c ∷ s))

-- `strconv.ParseUint(s, 10, 64)`.
unfoldable pub parse_uint64 : Text → Option ℕ
unfolding parse_decimal
parse_uint64 s = parse_decimal 18446744073709551615 s

abbrev pub as_positive : Option ℕ → Option ℤ
as_positive none = none
as_positive (some n) = some (pos n)

abbrev pub as_negative : Option ℕ → Option ℤ
as_negative none = none
as_negative (some n) = some (if n == 0 then pos 0 else negsuc (n - 1))

-- `strconv.ParseInt(s, 10, 64)`: a sign is read once, in front.
unfoldable pub parse_int64 : Text → Option ℤ
unfolding parse_decimal
parse_int64 [] = none
parse_int64 (c ∷ s) =
    if c == b'-'
    then as_negative (parse_decimal 9223372036854775808 s)
    else if c == b'+'
    then as_positive (parse_decimal 9223372036854775807 s)
    else as_positive (parse_decimal 9223372036854775807 (c ∷ s))

abbrev pub push_line : List Text → Text → List Text
push_line ws line = ws ++ line ∷ []

pub split_on-line :
    (sep : ℕ) (line : Text) → has_byte sep line ≡ false → split_on sep line ≡ line ∷ []
unfolding split_on has_byte
split_on-line sep [] h = refl
split_on-line sep (c ∷ line) h = ground (arith, split_on-line sep line)

abbrev IsStarted : List Text → Type 0
IsStarted ws = (w : Text) × (rest : List Text) × (ws ≡ w ∷ rest)

-- A split has at least one part.
split_on-IsStarted : (sep : ℕ) (s : Text) → IsStarted (split_on sep s)
unfolding split_on
split_on-IsStarted sep [] = ([], [], refl)
split_on-IsStarted sep (c ∷ s) = elim (Bool-cases (c == sep)) [
  | inl e ↦ rw e ([], split_on sep s, refl)
  | inr e ↦ rw e (started (split_on-IsStarted sep s))
]
  where
    started : IsStarted (split_on sep s) → IsStarted (push_first c (split_on sep s))
    started (w, rest, e) = (c ∷ w, rest, rw e refl)

push_first-append :
    (c : ℕ) (ws : List Text) (line : Text)
    → IsStarted ws
    → push_first c (ws ++ line ∷ []) ≡ push_first c ws ++ line ∷ []
push_first-append c ws line (w, rest, e) = rw e refl

-- A line put at the end of a text is the last line.
pub split_on-append :
    (sep : ℕ) (s line : Text)
    → has_byte sep line ≡ false
    → split_on sep (s ++ sep ∷ line) ≡ split_on sep s ++ line ∷ []
unfolding split_on
split_on-append sep [] line h = ground (arith, split_on-line sep line h)
split_on-append sep (c ∷ s) line h =
    rw (split_on-append sep s line h) (elim (Bool-cases (c == sep)) [
      | inl e ↦ rw e refl
      | inr e ↦ rw e (push_first-append c (split_on sep s) line (split_on-IsStarted sep s))
    ])
