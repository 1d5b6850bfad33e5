-- ===== src/Base/Space.antt =====
-- `strings.TrimSpace`, `strings.Fields` and `strings.ToLower`, on ASCII texts.
use Prim.Native.Nat.{ℕ, ◌+◌}
use mathlib.Core.Bool.{Bool, ◌&&◌, ◌||◌}
use mathlib.Core.List.{List, [], ◌∷◌, map, reverse}
use teleport_client.Base.Tests.{◌==◌, leb, if◌then◌else◌}
use teleport_client.Base.Lists.{keep}
use teleport_client.Base.Strings.{Text, is_nonempty}
use teleport_client.Base.Split.{push_first}

abbrev pub is_space : ℕ → Bool
is_space c = (leb 9 c && leb c 13) || c == 32

unfoldable pub drop_spaces : Text → Text
drop_spaces [] = []
drop_spaces (c ∷ s) = let rest = drop_spaces s in if is_space c then rest else c ∷ s

unfoldable pub trim_space : Text → Text
unfolding drop_spaces
trim_space s = reverse (drop_spaces (reverse (drop_spaces s)))

unfoldable pub split_spaces : Text → List Text
split_spaces [] = [] ∷ []
split_spaces (c ∷ s) =
    let rest = split_spaces s in if is_space c then [] ∷ rest else push_first c rest

unfoldable pub fields : Text → List Text
unfolding split_spaces
fields s = keep is_nonempty (split_spaces s)

abbrev pub lower_byte : ℕ → ℕ
lower_byte c = if leb 65 c && leb c 90 then c + 32 else c

abbrev pub to_lower : Text → Text
to_lower = map lower_byte
