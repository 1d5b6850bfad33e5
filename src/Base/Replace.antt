-- ===== src/Base/Replace.antt =====
-- `strings.ReplaceAll` for a pattern that is not empty, and `url.QueryEscape`.
use Prim.Native.Nat.{ℕ, zero, suc, ◌+◌, ◌-◌, ◌/◌, ◌%◌}
use mathlib.Core.Path.{◌≡◌, refl}
use mathlib.Core.Bool.{Bool, ◌&&◌, ◌||◌}
use mathlib.Core.List.{[], ◌∷◌, ◌++◌}
use teleport_client.Base.Tests.{◌==◌, leb, if◌then◌else◌}
use teleport_client.Base.Lists.{length}
use teleport_client.Base.Strings.{Text, codes, has_prefix}

-- `skip` bytes of the match before are still to be passed over.
unfoldable pub replace_from : Text → Text → ℕ → Text → Text
unfolding has_prefix
replace_from old new skip [] = []
replace_from old new (suc skip) (c ∷ s) = replace_from old new skip s
replace_from old new zero (c ∷ s) =
    let past = replace_from old new (length old - 1) s in
    let rest = replace_from old new zero s in
    if has_prefix old (c ∷ s) then new ++ past else c ∷ rest

unfoldable pub replace_all : Text → Text → Text → Text
unfolding replace_from
replace_all s old new = replace_from old new 0 s

abbrev is_unreserved : ℕ → Bool
is_unreserved c =
    (leb 48 c && leb c 57)
    || ((leb 65 c && leb c 90)
        || ((leb 97 c && leb c 122) || ((c == b'-' || c == b'_') || (c == b'.' || c == b'~'))))

abbrev upper_hex : ℕ → ℕ
upper_hex d = if leb d 9 then 48 + d else 55 + d

unfoldable pub query_escape : Text → Text
query_escape [] = []
query_escape (c ∷ s) =
    let rest = query_escape s in
    if is_unreserved c
    then c ∷ rest
    else if c == 32
    then b'+' ∷ rest
    else b'%' ∷ upper_hex (c / 16) ∷ upper_hex (c % 16) ∷ rest

query_escape_example : query_escape (codes "a/b +~") ≡ codes "a%2Fb+%2B~"
unfolding query_escape
query_escape_example = refl

replace_all_example : replace_all (codes "aabab") (codes "ab") (codes "[]") ≡ codes "a[][]"
unfolding replace_all
replace_all_example = refl
