-- ===== src/Common/Text/Regex.antt =====
-- The parts of Python's `re` that the program's patterns use: literals, `$`, and greedy runs of a
-- class with backtracking.
use Prim.Native.Nat.{ℕ}
use mathlib.Core.Bool.{Bool, true, false}
use mathlib.Core.Option.{Option, none, some}
use mathlib.Core.List.{List, [], ◌∷◌, ◌++◌, map}
use drivers_evergreen_tools.Common.Tests.{◌==◌, if◌then◌else◌}

infixl 5 ◌>>?◌
abbrev pub ◌>>?◌ {ℓ κ} : {A : Type ℓ} {B : Type κ} → Option A → (A → Option B) → Option B
none >>? f = none
some a >>? f = f a

-- One literal character.
unfoldable pub expect : ℕ → List ℕ → Option (List ℕ)
expect c [] = none
expect c (d ∷ s) = if d == c then some s else none

-- A literal text.
unfoldable pub expect_all : List ℕ → List ℕ → Option (List ℕ)
unfolding expect
expect_all [] s = some s
expect_all (c ∷ cs) s = expect c s >>? expect_all cs

-- `$`: the end, or a line feed at the end.
unfoldable pub at_end : List ℕ → Bool
at_end [] = true
at_end (c ∷ []) = c == 10
at_end (c ∷ d ∷ s) = false

-- A greedy run `[...]+`: every way to match it, the longest first, with the text behind.
unfoldable pub runs : (ℕ → Bool) → List ℕ → List (List ℕ × List ℕ)
runs ok [] = []
runs ok (c ∷ s) =
    let longer = map (λ (run, rest). (c ∷ run, rest)) (runs ok s) in
    if ok c then longer ++ (c ∷ [], s) ∷ [] else []

-- The first way that lets the rest of the pattern match.
unfoldable pub first_match {ℓ} :
    {B : Type ℓ} → List (List ℕ × List ℕ) → (List ℕ → List ℕ → Option B) → Option B
first_match [] k = none
first_match ((run, rest) ∷ ways) k =
    let later = first_match ways k in elim (k run rest) [ none ↦ later | some b ↦ some b ]
