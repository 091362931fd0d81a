-- ===== src/Prelude/Text.antt =====
-- Texts that are only compared whole: keys, statuses, identifiers.
use Prim.Native.String.{String}
use mathlib.Core.Path.{◌≡◌}
use mathlib.Core.Bool.{Bool, false, ◌||◌}
use mathlib.Core.List.{List, [], ◌∷◌}
use text.Mathlib.Text.{◌==◌}
pub use Prim.Native.String.{◌++◌ as str_append}
pub use text.Mathlib.Text.{◌==◌ as str_eq}
pub use text.Mathlib.TextEquality.{eq_iff}
pub use text.Mathlib.TextPositions.{eq_refl}

-- `x in xs`, over texts
abbrev pub str_in : String → List String → Bool
str_in x [] = false
str_in x (y ∷ ys) = x == y || str_in x ys

-- No text stands twice in a list.
abbrev pub Distinct : List String → Type 0
Distinct [] = Unit
Distinct (x ∷ xs) = (str_in x xs ≡ false) × Distinct xs
