-- ===== src/Store/MemoryText.antt =====
-- internal/store/memory.go: the texts and keys of facts.
use Prim.Native.Char.{Char, char, code}
use ad_agent.Prelude.{ℕ, String, Bool, true, false, ◌||◌, eqb, if◌then◌else◌}
use ad_agent.Prelude.Text.{is_space}

-- What the code takes from Go: unicode.ToLower of a rune, and a time in RFC 3339 with nanoseconds.
pub record MemoryLibrary : Type 0 where
  pub lower : Char → Char
  pub stamp : ℕ → String

-- strings.ContainsAny(s, "\r\n")
unfoldable pub has_line_break : String → Bool
has_line_break String.[] = false
has_line_break (String.◌∷◌ c s) = eqb (code c) 13 || eqb (code c) 10 || has_line_break s

-- strings.TrimSpace, on the text itself
drop_spaces : String → String
drop_spaces String.[] = ""
drop_spaces (String.◌∷◌ c s) = if is_space (code c) then drop_spaces s else String.◌∷◌ c s

reversed : String → String → String
reversed String.[] done = done
reversed (String.◌∷◌ c s) done = reversed s (String.◌∷◌ c done)

unfoldable pub trim_space : String → String
unfolding drop_spaces reversed
trim_space s = reversed (drop_spaces (reversed (drop_spaces s) "")) ""

-- strings.Join(strings.Fields(s), "_"): `gap` says that a field has ended before this place.
join_fields : Bool → String → String
join_fields gap String.[] = ""
join_fields gap (String.◌∷◌ c s) =
    let after_space = join_fields true s in
    let after_rune = join_fields false s in
    if is_space (code c)
    then after_space
    else if gap
    then String.◌∷◌ (char 95 tt) (String.◌∷◌ c after_rune)
    else String.◌∷◌ c after_rune

module _ (lib : MemoryLibrary) where
  lowered : String → String
  lowered String.[] = ""
  lowered (String.◌∷◌ c s) = String.◌∷◌ (lib.lower c) (lowered s)

  -- The key that a fact is stored under.
  unfoldable pub fact_key_of : String → String
  unfolding trim_space lowered join_fields
  fact_key_of key = join_fields false (trim_space (lowered (trim_space key)))
