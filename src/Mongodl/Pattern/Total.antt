-- ===== src/Mongodl/Pattern/Total.antt =====
-- `_test_pattern` returns for every path and every parsed pattern.
use drivers_evergreen_tools.Common.{
  ℕ, zero, suc, drop, ◌≤◌, ◌≡◌, refl, Bool, true, false, Bool-cases, inl, inr, List, [], ◌∷◌, ◌++◌,
  Option, some, arith, All, length,
}
use drivers_evergreen_tools.Common.Text.{Text, codes, text_eq}
use drivers_evergreen_tools.Mongodl.Pattern.{
  fnmatch, pathjoin, any_returns, tails, test_parts, test_pattern, parts_of, anchor, split_at,
  keep_parts,
}
use drivers_evergreen_tools.Mongodl.Pattern.Paths.{
  IsPart, pathjoin-All, keep_parts-IsPart, split_at-NoSlash,
}

abbrev Returns : Option Bool → Type 0
Returns t = (b : Bool) × (t ≡ some b)

any_returns-Returns :
    (p : List Text → Option Bool) (paths : List (List Text))
    → ((path : List Text) → Returns (p path))
    → Returns (any_returns p paths)
unfolding any_returns
any_returns-Returns p [] h = (false, refl)
any_returns-Returns p (path ∷ paths) h =
    let (found, e) = h path in
    elim (Bool-cases found) [
      | inl f ↦ (true, rw (e, f) refl)
      | inr f ↦ rw (e, f) (any_returns-Returns p paths h)
    ]

drop-All : (parts : List Text) → All IsPart parts → All IsPart (drop 1 parts)
drop-All [] h = h
drop-All (part ∷ parts) h = h.1

test_parts-Returns :
    (fuel : ℕ) (path pattern : List Text)
    → length pattern ≤ fuel
    → All IsPart (drop 1 pattern)
    → Returns (test_parts fuel path pattern)
unfolding test_parts
test_parts-Returns fuel path [] l h = (true, refl)
test_parts-Returns fuel [] (head ∷ tail) l h = (false, refl)
test_parts-Returns zero (part ∷ parts) (head ∷ tail) l h = absurd (omega arith)
test_parts-Returns (suc fuel) (part ∷ parts) (head ∷ tail) l h =
    let later : (path : List Text) → Returns (test_parts fuel path (pathjoin tail)) = λ path.
      rw (pathjoin-All tail h)
        (test_parts-Returns fuel path tail (omega arith) (drop-All tail h)) in
    elim (Bool-cases (text_eq head (codes "**"))) [
      | inl e ↦ rw e (
          any_returns-Returns (λ t. test_parts fuel (pathjoin t) (pathjoin tail))
            (tails (part ∷ parts)) λ t. later (pathjoin t))
      | inr e ↦ elim (Bool-cases (fnmatch part head)) [
        | inl m ↦ rw (e, m) (later (pathjoin parts))
        | inr m ↦ rw (e, m) (false, refl)
      ]
    ]

anchor-short : (s : Text) → length (anchor s) ≤ 1
unfolding anchor
anchor-short [] = omega arith
anchor-short (a ∷ []) = ground arith
anchor-short (a ∷ b ∷ []) = ground arith
anchor-short (a ∷ b ∷ c ∷ s) = ground arith

drop-append_All :
    (front parts : List Text)
    → length front ≤ 1
    → All IsPart parts
    → All IsPart (drop 1 (front ++ parts))
drop-append_All [] parts l h = drop-All parts h
drop-append_All (a ∷ []) parts l h = h
drop-append_All (a ∷ b ∷ front) parts l h = absurd (omega arith)

-- `_test_pattern` returns for every path and every pattern that `PurePath` parses.
pub test_pattern-Returns :
    (path : List Text) (s : Text)
    → (found : Bool) × (test_pattern path (some (parts_of s)) ≡ some found)
unfolding test_pattern parts_of
test_pattern-Returns path s =
    let parts = keep_parts (split_at b'/' [] s) in
    test_parts-Returns (length (anchor s ++ parts)) path (anchor s ++ parts) (omega arith) (
      drop-append_All (anchor s) parts (anchor-short s)
        (keep_parts-IsPart (split_at b'/' [] s) (split_at-NoSlash [] s tt)))
