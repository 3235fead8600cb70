-- ===== src/Prelude/Text.antt =====
-- Texts as byte lists: the literals of the source, `fmt.Sprintf` with a plain `%s`, and the tests and edits of
-- package strings that the drivers use.
use Prim.Native.Nat.{ℕ}
use Prim.Native.Char.{code}
use Prim.Native.String.{String}
use mathlib.Core.Bool.{Bool, true, false, ◌&&◌}
use mathlib.Core.Option.{Option, none, some}
use mathlib.Core.List.{List, [], ◌∷◌}
use migrate.Prelude.Tests.{◌==◌, if◌then◌else◌}

-- The code points of a literal: its bytes, where it is ASCII.
abbrev pub codes : String → List ℕ
codes String.[] = []
codes (String.◌∷◌ c s) = code c ∷ codes s

abbrev pub is_empty : List ℕ → Bool
is_empty [] = true
is_empty (c ∷ s) = false

-- `strings.HasPrefix`, as the rest behind the prefix.
abbrev pub strip_prefix : List ℕ → List ℕ → Option (List ℕ)
strip_prefix [] s = some s
strip_prefix (c ∷ p) [] = none
strip_prefix (c ∷ p) (d ∷ s) = if c == d then strip_prefix p s else none

abbrev pub is_prefix : List ℕ → List ℕ → Bool
is_prefix [] s = true
is_prefix (c ∷ p) [] = false
is_prefix (c ∷ p) (d ∷ s) = c == d && is_prefix p s

-- `strings.Replace(s, old, "", 1)`.
abbrev remove_at : Option (List ℕ) → ℕ → List ℕ → List ℕ
remove_at none c rest = c ∷ rest
remove_at (some behind) c rest = behind

unfoldable pub remove_first : List ℕ → List ℕ → List ℕ
remove_first old [] = []
remove_first old (c ∷ s) = remove_at (strip_prefix old (c ∷ s)) c (remove_first old s)
