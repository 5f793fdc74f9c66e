-- ===== src/Common/Text/Decimal.antt =====
-- `str(n)`, the digits of regular expressions (`\d+`), and `int` of a run of digits.
-- Python's `\d` also takes the decimal digits of other scripts; only ASCII digits are modelled.
use Prim.Native.Nat.{ℕ, zero, suc, ◌+◌, ◌-◌, ◌*◌, ◌/◌, ◌%◌, ◌<◌}
use mathlib.Core.Path.{◌≡◌, refl}
use mathlib.Core.Bool.{Bool, true, false, ◌&&◌}
use mathlib.Core.List.{List, [], ◌∷◌, ◌++◌}
use native.Mathlib.Omega.{arith}
use drivers_evergreen_tools.Common.Tests.{ltb, leb, if◌then◌else◌}
use drivers_evergreen_tools.Common.Lists.{length, All}

abbrev pub is_digit : ℕ → Bool
is_digit c = leb b'0' c && leb c b'9'

abbrev pub IsDigit : ℕ → Type 0
IsDigit c = is_digit c ≡ true

-- The number that digits spell behind `n`: `int(text)` is `value 0 text`.
abbrev pub value : ℕ → List ℕ → ℕ
value n [] = n
value n (c ∷ s) = value (n * 10 + (c - b'0')) s

show_onto : ℕ → ℕ → List ℕ → List ℕ
show_onto zero n out = out
show_onto (suc f) n out =
    let rest = show_onto f (n / 10) ((n % 10 + b'0') ∷ out) in
    if ltb n 10 then (n + b'0') ∷ out else rest

-- `str(n)`; the fuel `n + 1` is more than the number of digits.
unfoldable pub show : ℕ → List ℕ
unfolding show_onto
show n = show_onto (suc n) n []

-- The longest run of digits at the front, and what follows it.
unfoldable pub span_digits : List ℕ → List ℕ × List ℕ
span_digits [] = ([], [])
span_digits (c ∷ s) =
    let rest = span_digits s in if is_digit c then (c ∷ rest.0, rest.1) else ([], c ∷ s)

-- No digit stands at the front.
abbrev pub NoDigitFirst : List ℕ → Type 0
NoDigitFirst [] = Unit
NoDigitFirst (c ∷ s) = is_digit c ≡ false

value-show_onto : (f n : ℕ) (out : List ℕ) → n < f → value 0 (show_onto f n out) ≡ value n out
unfolding show_onto
value-show_onto zero n out h = absurd (omega arith)
value-show_onto (suc f) n out h = ground (arith, value-show_onto f (n / 10) ((n % 10 + b'0') ∷ out))

pub value-show : (n : ℕ) → value 0 (show n) ≡ n
unfolding show
value-show n = value-show_onto (suc n) n [] (omega arith)

show_onto-IsDigit :
    (f n : ℕ) (out : List ℕ) → n < f → All IsDigit out → All IsDigit (show_onto f n out)
unfolding show_onto
show_onto-IsDigit zero n out h d = absurd (omega arith)
show_onto-IsDigit (suc f) n out h d =
    ground (arith, show_onto-IsDigit f (n / 10) ((n % 10 + b'0') ∷ out))

pub show-IsDigit : (n : ℕ) → All IsDigit (show n)
unfolding show
show-IsDigit n = show_onto-IsDigit (suc n) n [] (omega arith) tt

show_onto_pos : (f n : ℕ) (out : List ℕ) → n < f → 0 < length (show_onto f n out)
unfolding show_onto
show_onto_pos zero n out h = absurd (omega arith)
show_onto_pos (suc f) n out h = ground (arith, show_onto_pos f (n / 10) ((n % 10 + b'0') ∷ out))

pub show_pos : (n : ℕ) → 0 < length (show n)
unfolding show
show_pos n = show_onto_pos (suc n) n [] (omega arith)

-- A run of digits ends where no digit follows.
pub span_digits-append :
    (ds rest : List ℕ) → All IsDigit ds → NoDigitFirst rest → span_digits (ds ++ rest) ≡ (ds, rest)
unfolding span_digits
span_digits-append [] [] d h = refl
span_digits-append [] (c ∷ rest) d h = ground arith
span_digits-append (c ∷ ds) rest d h = ground (arith, span_digits-append ds rest d.1 h)

-- What is read back is what was there.
pub append-span_digits : (s : List ℕ) → (span_digits s).0 ++ (span_digits s).1 ≡ s
unfolding span_digits
append-span_digits [] = refl
append-span_digits (c ∷ s) = ground (arith, append-span_digits s)
