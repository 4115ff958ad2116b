-- ===== src/Prelude/Words.antt =====
-- Texts that are searched and cut: `includes`, `slice`, and what a program takes from the
-- language's own tables, which are parameters: `trim`, the change of case, `encodeURIComponent`.
use Prim.Native.Char.{Char, code}
use industrial_safety_intell.Prelude.{ℕ, zero, suc, String, Bool, true, false, ◌||◌, ltb, not, ◌&&◌}

pub record Words : Type 0 where
  pub trim : String → String
  pub lower : String → String  -- toLowerCase
  pub upper : String → String  -- toUpperCase
  pub encode : String → String  -- encodeURIComponent

abbrev same_char : Char → Char → Bool
same_char c d = not (ltb (code c) (code d)) && not (ltb (code d) (code c))

-- `text.startsWith(prefix)`
unfoldable pub starts_with : String → String → Bool
starts_with text String.[] = true
starts_with String.[] (String.◌∷◌ d prefix) = false
starts_with (String.◌∷◌ c text) (String.◌∷◌ d prefix) = same_char c d && starts_with text prefix

-- `text.includes(needle)`
unfoldable pub contains : String → String → Bool
unfolding starts_with
contains String.[] needle = starts_with "" needle
contains (String.◌∷◌ c text) needle = starts_with (String.◌∷◌ c text) needle || contains text needle

-- `text.slice(0, n)`
unfoldable pub cut : ℕ → String → String
cut zero text = ""
cut (suc n) String.[] = ""
cut (suc n) (String.◌∷◌ c text) = String.◌∷◌ c (cut n text)
