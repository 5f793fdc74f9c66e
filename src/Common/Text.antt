-- ===== src/Common/Text.antt =====
-- Text that the program parses, as a list of code points.
pub mod Decimal
pub mod Regex
pub mod Utf8
use Prim.Native.Nat.{ℕ}
use Prim.Native.Char.{code}
use Prim.Native.String.{String}
use mathlib.Core.Path.{◌≡◌, refl}
use mathlib.Core.Logic.{◌↔◌}
use native.Mathlib.Omega.{arith}
use mathlib.Core.Bool.{Bool, true, false, ◌&&◌, ◌||◌}
use mathlib.Core.List.{List, [], ◌∷◌, ◌++◌}
use drivers_evergreen_tools.Common.Tests.{leb, ◌==◌, if◌then◌else◌}

abbrev pub Text : Type 0
Text = List ℕ

-- The code points of a text.
abbrev pub codes : String → Text
codes String.[] = []
codes (String.◌∷◌ c s) = code c ∷ codes s

-- The ASCII characters at which `str.split()` cuts.
abbrev pub is_space : ℕ → Bool
is_space c = (leb 9 c && leb c 13) || (leb 28 c && leb c 32)

abbrev emit : Text → List Text → List Text
emit [] words = words
emit (c ∷ word) words = (c ∷ word) ∷ words

split_from : Text → Text → List Text
split_from word [] = emit word []
split_from word (c ∷ s) =
    let rest = split_from [] s in
    let longer = split_from (word ++ c ∷ []) s in if is_space c then emit word rest else longer

-- `text.split()`: the words between runs of white space.
unfoldable pub split : Text → List Text
unfolding split_from
split s = split_from [] s

-- Equality of texts and of byte strings.
unfoldable pub text_eq : Text → Text → Bool
text_eq [] [] = true
text_eq [] (d ∷ t) = false
text_eq (c ∷ s) [] = false
text_eq (c ∷ s) (d ∷ t) = c == d && text_eq s t

pub text_eq_iff : (s t : Text) → (text_eq s t ≡ true) ↔ (s ≡ t)
unfolding text_eq
text_eq_iff [] [] = (λ h. refl, λ h. refl)
text_eq_iff [] (d ∷ t) = ground arith
text_eq_iff (c ∷ s) [] = ground arith
text_eq_iff (c ∷ s) (d ∷ t) = ground (arith, text_eq_iff s t)
