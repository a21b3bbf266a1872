-- ===== src/Prelude/Text.antt =====
-- What the source uses of Go's `strings`, `len` and `[]rune`: texts as code points.
use Prim.Native.Char.{code}
use Prim.Native.String.{String}
use Prim.Native.String
use Prim.Native.Nat.{ℕ}
use mathlib.Core.Bool.{Bool, ◌&&◌, ◌||◌}
use mathlib.Core.List.{List, [], ◌∷◌, reverse}
use ad_agent.Prelude.Tests.{leb, eqb, if◌then◌else◌}
use ad_agent.Prelude.Lists.{length}

-- `[]rune(s)`
abbrev pub runes : String → List ℕ
runes String.[] = []
runes (String.◌∷◌ c s) = code c ∷ runes s

-- `len(s)`: bytes of UTF-8.
abbrev pub byte_length : String → ℕ
byte_length s = String.len s

-- unicode.IsSpace
abbrev pub is_space : ℕ → Bool
is_space c =
    leb 9 c && leb c 13
    || eqb c 32
    || eqb c 0x85
    || eqb c 0xa0
    || eqb c 0x1680
    || leb 0x2000 c && leb c 0x200a
    || eqb c 0x2028
    || eqb c 0x2029
    || eqb c 0x202f
    || eqb c 0x205f
    || eqb c 0x3000

abbrev pub trim_left : List ℕ → List ℕ
trim_left [] = []
trim_left (c ∷ cs) = if is_space c then trim_left cs else c ∷ cs

-- `[]rune(strings.TrimSpace(s))`
abbrev pub trimmed : String → List ℕ
trimmed s = reverse (trim_left (reverse (trim_left (runes s))))

-- `strings.TrimSpace(s) == ""`
abbrev pub is_blank : String → Bool
is_blank s = eqb (length (trimmed s)) 0
