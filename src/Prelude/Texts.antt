-- ===== src/Prelude/Texts.antt =====
-- JavaScript strings as lists of UTF-16 code units, where the program walks them.
use Prim.Native.Nat.{ℕ}
use Prim.Native.Char.{code}
use Prim.Native.String.{String}
use mathlib.Core.Bool.{Bool, true, false, ◌&&◌, ◌||◌}
use mathlib.Core.List.{List, [], ◌∷◌}
use jambonz_feature_server.Prelude.Tests.{◌==◌, leb}

abbrev pub Units : Type 0
Units = List ℕ

-- The code units of a literal inside the basic plane.
abbrev pub units : String → Units
units String.[] = []
units (String.◌∷◌ c s) = code c ∷ units s

-- The class `\s`, which is also what `trim` removes.
unfoldable pub is_space : ℕ → Bool
is_space c =
    (leb 9 c && leb c 13)
    || c == 32
    || c == 160
    || c == 0x1680
    || (leb 0x2000 c && leb c 0x200a)
    || c == 0x2028
    || c == 0x2029
    || c == 0x202f
    || c == 0x205f
    || c == 0x3000
    || c == 0xfeff

unfoldable pub is_digit : ℕ → Bool
is_digit c = leb b'0' c && leb c b'9'

-- `text.startsWith(pattern)`
abbrev pub is_prefix : Units → Units → Bool
is_prefix [] text = true
is_prefix (c ∷ pattern) [] = false
is_prefix (c ∷ pattern) (d ∷ text) = c == d && is_prefix pattern text

abbrev pub same : Units → Units → Bool
same [] [] = true
same (c ∷ s) (d ∷ t) = c == d && same s t
same _ _ = false

-- `text.endsWith(pattern)`
abbrev pub is_suffix : Units → Units → Bool
is_suffix pattern [] = same pattern []
is_suffix pattern (d ∷ text) = same pattern (d ∷ text) || is_suffix pattern text
