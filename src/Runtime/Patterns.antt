-- ===== src/Runtime/Patterns.antt =====
-- internal/runtime/model.go: the regular expressions of names, as tests on runes.
use Prim.Native.Char.{code}
use Prim.Native.String
use ad_agent.Prelude.{ℕ, String, Bool, true, false, ◌&&◌, ◌||◌, leb, eqb}

in_range : ℕ → ℕ → ℕ → Bool
in_range low high c = leb low c && leb c high

unfoldable pub is_upper : ℕ → Bool
unfolding in_range
is_upper c = in_range 65 90 c

unfoldable pub is_digit : ℕ → Bool
unfolding in_range
is_digit c = in_range 48 57 c

unfoldable pub is_alphanumeric : ℕ → Bool
unfolding is_upper is_digit in_range
is_alphanumeric c = is_upper c || in_range 97 122 c || is_digit c

unfoldable pub all_runes : (ℕ → Bool) → String → Bool
all_runes p String.[] = true
all_runes p (String.◌∷◌ c s) = p (code c) && all_runes p s

-- The pattern `^F R{0,127}$` for two classes of runes.
unfoldable pub first_and_rest : (ℕ → Bool) → (ℕ → Bool) → String → Bool
unfolding all_runes
first_and_rest first rest String.[] = false
first_and_rest first rest (String.◌∷◌ c s) =
    first (code c) && all_runes rest s && leb (String.count s) 127

-- `^[A-Za-z0-9][A-Za-z0-9._:/-]{0,127}$`
unfoldable pub is_model_name : String → Bool
unfolding first_and_rest is_alphanumeric
is_model_name s =
    first_and_rest is_alphanumeric
      (λ c. is_alphanumeric c || eqb c 46 || eqb c 95 || eqb c 58 || eqb c 47 || eqb c 45) s

-- `^[A-Z][A-Z0-9_]{0,127}$`
unfoldable pub is_env_name : String → Bool
unfolding first_and_rest is_upper is_digit
is_env_name s = first_and_rest is_upper (λ c. is_upper c || is_digit c || eqb c 95) s
