-- ===== src/Base/Json.antt =====
-- encoding/json for the values that the client marshals: a string of ASCII bytes.
use Prim.Native.Nat.{ℕ, zero, suc, ◌+◌, ◌/◌, ◌%◌}
use mathlib.Core.Path.{◌≡◌, refl, ap}
use mathlib.Core.Bool.{◌||◌}
use mathlib.Core.List.{[], ◌∷◌, ◌++◌}
use teleport_client.Base.Tests.{◌==◌, ltb, leb, if◌then◌else◌}
use teleport_client.Base.Lists.{replicate}
use teleport_client.Base.Strings.{Text, codes}

abbrev pub hex_digit : ℕ → ℕ
hex_digit d = if leb d 9 then 48 + d else 87 + d

-- The escapes of a control character, of a quote and of the characters that HTML reads.
unfoldable pub escape_byte : ℕ → Text
escape_byte c =
    if c == b'"' || c == 92
    then 92 ∷ c ∷ []
    else if c == 8
    then codes "\\b"
    else if c == 12
    then codes "\\f"
    else if c == 10
    then codes "\\n"
    else if c == 13
    then codes "\\r"
    else if c == 9
    then codes "\\t"
    else if ltb c 32 || c == b'<' || c == b'>' || c == b'&'
    then codes "\\u00" ++ hex_digit (c / 16) ∷ hex_digit (c % 16) ∷ []
    else c ∷ []

unfoldable pub escape : Text → Text
escape [] = []
escape (c ∷ s) = escape_byte c ++ escape s

unfoldable pub json_string : Text → Text
json_string s = 34 ∷ (escape s ++ 34 ∷ [])

pub escape-replicate_A : (n : ℕ) → escape (replicate n 65) ≡ replicate n 65
unfolding escape escape_byte
escape-replicate_A zero = refl
escape-replicate_A (suc n) = ap (◌∷◌ 65) (escape-replicate_A n)

json_string_example : json_string (codes "a<") ≡ codes "\"a\\u003c\""
unfolding json_string escape escape_byte
json_string_example = refl
