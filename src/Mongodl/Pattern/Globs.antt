-- ===== src/Mongodl/Pattern/Globs.antt =====
-- What `_test_pattern` accepts, described without its recursion.
use drivers_evergreen_tools.Common.{
  ℕ, zero, suc, ◌≤◌, ◌≡◌, refl, sym, subst, ap₂, Bool, true, false, Bool-cases, inl, inr, ◌⊎◌, ◌↔◌,
  List, [], ◌∷◌, Option, some, arith, All, length,
}
use drivers_evergreen_tools.Common.Text.{Text, codes, text_eq}
use drivers_evergreen_tools.Mongodl.Pattern.{
  fnmatch, pathjoin, any_returns, tails, test_parts, test_pattern,
}
use drivers_evergreen_tools.Mongodl.Pattern.Paths.{IsPart, pathjoin-All}

abbrev pub stars : Text
stars = codes "**"

-- A front of the path, which may be shorter than it, matches the components of the pattern, where
-- `**` stands for any run of components that leaves at least one.
pub data Globs : List Text → List Text → Type 0 where
  done : {path : List Text} → Globs path []
  one :
      {part head : Text} {path pattern : List Text}
      → text_eq head stars ≡ false
      → fnmatch part head ≡ true
      → Globs path pattern
      → Globs (part ∷ path) (head ∷ pattern)
  rest :
      {part : Text} {path pattern : List Text} {head : Text}
      → text_eq head stars ≡ true
      → Globs (part ∷ path) pattern
      → Globs (part ∷ path) (head ∷ pattern)
  skip :
      {part : Text} {path pattern : List Text} {head : Text}
      → text_eq head stars ≡ true
      → Globs path (head ∷ pattern)
      → Globs (part ∷ path) (head ∷ pattern)

Globs-empty : {head : Text} {pattern : List Text} → Globs [] (head ∷ pattern) → ⊥
Globs-empty g = elim g [ ]

Globs-star :
    {part head : Text} {path pattern : List Text}
    → text_eq head stars ≡ true
    → Globs (part ∷ path) (head ∷ pattern)
    → Globs (part ∷ path) pattern ⊎ Globs path (head ∷ pattern)
Globs-star h (one e m g) = ground arith
Globs-star h (rest e g) = inl g
Globs-star h (skip e g) = inr g

Globs-one :
    {part head : Text} {path pattern : List Text}
    → text_eq head stars ≡ false
    → Globs (part ∷ path) (head ∷ pattern)
    → (fnmatch part head ≡ true) × Globs path pattern
Globs-one h (one e m g) = (m, g)
Globs-one h (rest e g) = ground arith
Globs-one h (skip e g) = ground arith

-- A test that returns, and returns whether the path matches.
abbrev Decides : Option Bool → Type 0 → Type 0
Decides t P = ((t ≡ some true) × P) ⊎ ((t ≡ some false) × (P → ⊥))

-- `any` over the suffixes decides whether one of them matches the rest of the pattern.
any_returns-tails :
    (p : List Text → Option Bool) (pattern : List Text) (head : Text)
    → text_eq head stars ≡ true
    → ((path : List Text) → All IsPart path → Decides (p path) (Globs path pattern))
    → (path : List Text) → All IsPart path
    → Decides (any_returns p (tails path)) (Globs path (head ∷ pattern))
unfolding any_returns
any_returns-tails p pattern head hs h [] hp = inr (refl, λ g. Globs-empty g)
any_returns-tails p pattern head hs h (part ∷ path) hp = elim (h (part ∷ path) hp) [
  | inl (e, g) ↦ inl (rw e refl, rest hs g)
  | inr (e, n) ↦ elim (any_returns-tails p pattern head hs h path hp.1) [
    | inl (f, g) ↦ inl (rw (e, f) refl, skip hs g)
    | inr (f, m) ↦ inr (rw (e, f) refl, λ g. elim (Globs-star hs g) [ inl a ↦ n a | inr b ↦ m b ])
  ]
]

test_parts-one :
    (fuel : ℕ) (part head : Text) (parts tail : List Text)
    → text_eq head stars ≡ false
    → fnmatch part head ≡ true
    → All IsPart parts
    → All IsPart tail
    → test_parts (suc fuel) (part ∷ parts) (head ∷ tail) ≡ test_parts fuel parts tail
unfolding test_parts
test_parts-one fuel part head parts tail e m hp hq =
    rw (e, m) (ap₂ (test_parts fuel) (pathjoin-All parts hp) (pathjoin-All tail hq))

test_parts-Decides :
    (fuel : ℕ) (path pattern : List Text)
    → length pattern ≤ fuel
    → All IsPart path
    → All IsPart pattern
    → Decides (test_parts fuel path pattern) (Globs path pattern)
unfolding test_parts
test_parts-Decides fuel path [] l hp hq = inl (refl, done)
test_parts-Decides fuel [] (head ∷ tail) l hp hq = inr (refl, λ g. Globs-empty g)
test_parts-Decides zero (part ∷ parts) (head ∷ tail) l hp hq = absurd (omega arith)
test_parts-Decides (suc fuel) (part ∷ parts) (head ∷ tail) l hp hq =
    elim (Bool-cases (text_eq head stars)) [
      | inl e ↦ rw e (
          any_returns-tails (λ t. test_parts fuel (pathjoin t) (pathjoin tail)) tail head e
            (λ path h.
              rw (pathjoin-All path h, pathjoin-All tail hq.1)
                (test_parts-Decides fuel path tail (omega arith) h hq.1))
            (part ∷ parts) hp)
      | inr e ↦ elim (Bool-cases (fnmatch part head)) [
        | inl m ↦
            subst (λ o. Decides o (Globs (part ∷ parts) (head ∷ tail)))
              (sym (test_parts-one fuel part head parts tail e m hp.1 hq.1))
              (elim (test_parts-Decides fuel parts tail (omega arith) hp.1 hq.1) [
                | inl (f, g) ↦ inl (f, one e m g)
                | inr (f, n) ↦ inr (f, λ g. n (Globs-one e g).1)
              ])
        | inr m ↦ rw (e, m) (inr (refl, λ g. ground (arith, Globs-one e g)))
      ]
    ]

-- For a relative path and a relative pattern `_test_pattern` returns, and it returns whether a
-- front of the path matches: the whole path need not, so that `bin` accepts `bin/mongod`.
pub test_pattern-Globs :
    (path pattern : List Text)
    → All IsPart path
    → All IsPart pattern
    → (found : Bool) × (test_pattern path (some pattern) ≡ some found)
      × ((found ≡ true) ↔ Globs path pattern)
unfolding test_pattern
test_pattern-Globs path pattern hp hq =
    elim (test_parts-Decides (length pattern) path pattern (omega arith) hp hq) [
      | inl (e, g) ↦ (true, e, (λ h. g, λ h. refl))
      | inr (e, n) ↦ (false, e, (λ h. ground arith, λ g. absurd (n g)))
    ]
