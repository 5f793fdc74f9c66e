-- ===== src/Mongodl/Version/Shapes.antt =====
-- What the versions of the product database parse to.
use drivers_evergreen_tools.Common.{
  ℕ, ◌<◌, ◌≡◌, refl, true, false, none, some, [], ◌∷◌, ◌++◌, arith, All, length, append-nil, ok,
  sym, length-append,
}
use drivers_evergreen_tools.Common.Int.{negsuc}
use drivers_evergreen_tools.Common.Text.{Text, codes, text_eq}
use drivers_evergreen_tools.Common.Text.Decimal.{
  value, show, IsDigit, NoDigitFirst, span_digits-append, show-IsDigit, show_pos, value-show,
}
use drivers_evergreen_tools.Common.Text.Regex.{at_end, expect, runs, first_match}
use drivers_evergreen_tools.Mongodl.Version.{
  parse_number, match_major, match_tag, match_version, either_version, tuple, version_tup, is_lower,
  mdb_version_not_rc, collate_mdb_version, compare_tuples, less, stable_max_rc, full_version,
  tagged, tag_number,
}

parse_number-digits :
    (ds rest : Text)
    → All IsDigit ds
    → 0 < length ds
    → NoDigitFirst rest
    → parse_number (ds ++ rest) ≡ some (value 0 ds, rest)
unfolding parse_number
parse_number-digits [] rest d h e = elim h [ ]
parse_number-digits (c ∷ ds) rest d h e = ground (arith, span_digits-append (c ∷ ds) rest d e)

parse_number-show :
    (n : ℕ) (rest : Text) → NoDigitFirst rest → parse_number (show n ++ rest) ≡ some (n, rest)
parse_number-show n rest e =
    ground (arith, parse_number-digits (show n) rest (show-IsDigit n) (show_pos n) e, value-show n)

parse_number-last : (n : ℕ) → parse_number (show n) ≡ some (n, [])
parse_number-last n = rw (append-nil (show n)) at (parse_number-show n [] tt)

-- `a.b`
abbrev pub release : ℕ → ℕ → Text
release a b = show a ++ b'.' ∷ show b

-- `a.b.c`
abbrev pub stable : ℕ → ℕ → ℕ → Text
stable a b c = show a ++ b'.' ∷ (show b ++ b'.' ∷ show c)

-- `a.b.c-rcn`
abbrev pub candidate : ℕ → ℕ → ℕ → ℕ → Text
candidate a b c n = show a ++ b'.' ∷ (show b ++ b'.' ∷ (show c ++ (codes "-rc" ++ show n)))

match_major-longer :
    (a b : ℕ) (d : ℕ) (rest : Text)
    → match_major (show a ++ b'.' ∷ (show b ++ b'.' ∷ d ∷ rest)) ≡ none
unfolding match_major expect at_end
match_major-longer a b d rest =
    rw
      (
        parse_number-show a (b'.' ∷ (show b ++ b'.' ∷ d ∷ rest)) refl,
        parse_number-show b (b'.' ∷ d ∷ rest) refl,
      )
      refl

match_major-release : (a b : ℕ) → match_major (release a b) ≡ some (a, b)
unfolding match_major expect at_end
match_major-release a b = rw (parse_number-show a (b'.' ∷ show b) refl, parse_number-last b) refl

runs-digit : (ds : Text) → All IsDigit ds → runs is_lower ds ≡ []
unfolding runs is_lower
runs-digit [] h = refl
runs-digit (c ∷ ds) h = ground arith

match_tag-rc : (n : ℕ) → match_tag (codes "-rc" ++ show n) ≡ some (codes "rc", n)
unfolding match_tag expect runs first_match is_lower
match_tag-rc n = ground (arith, runs-digit (show n) (show-IsDigit n), parse_number-last n)

match_tag-none : match_tag [] ≡ none
unfolding match_tag expect
match_tag-none = refl

show-cons : (ds : Text) → 0 < length ds → (d : ℕ) × (more : Text) × (ds ≡ d ∷ more)
show-cons [] h = absurd (omega arith)
show-cons (d ∷ more) h = (d, more, refl)

match_major-full :
    (a b : ℕ) (s : Text) → 0 < length s → match_major (show a ++ b'.' ∷ (show b ++ b'.' ∷ s)) ≡ none
match_major-full a b s h = let (d, more, e) = show-cons s h in rw e (match_major-longer a b d more)

match_version-numbers :
    (a b c : ℕ) (rest : Text)
    → NoDigitFirst rest
    → match_version (show a ++ b'.' ∷ (show b ++ b'.' ∷ (show c ++ rest)))
      ≡ some (a, b, c, match_tag rest)
unfolding match_version expect
match_version-numbers a b c rest h =
    rw
      (
        parse_number-show a (b'.' ∷ (show b ++ b'.' ∷ (show c ++ rest))) refl,
        parse_number-show b (b'.' ∷ (show c ++ rest)) refl,
        parse_number-show c rest h,
      )
      refl

match_version-stable : (a b c : ℕ) → match_version (stable a b c) ≡ some (a, b, c, none)
match_version-stable a b c =
    rw (sym (append-nil (show c)), match_version-numbers a b c [] tt, match_tag-none) refl

append_pos : (xs ys : Text) → 0 < length xs → 0 < length (xs ++ ys)
append_pos xs ys h = omega (arith, length-append xs ys)

-- The two-number version is the floor of its series.
pub version_tup-release : (a b : ℕ) → version_tup (release a b) ≡ ok (tuple a b 0 0 0)
unfolding version_tup either_version
version_tup-release a b = rw (match_major-release a b) refl

pub version_tup-stable : (a b c : ℕ) → version_tup (stable a b c) ≡ ok (tuple a b c stable_max_rc 0)
unfolding version_tup either_version full_version tagged
version_tup-stable a b c =
    rw (match_major-full a b (show c) (show_pos c), match_version-stable a b c) refl

pub version_tup-candidate : (a b c n : ℕ) → version_tup (candidate a b c n) ≡ ok (tuple a b c 3 n)
unfolding version_tup either_version full_version tagged tag_number text_eq
version_tup-candidate a b c n =
    rw
      (
        match_major-full a b (show c ++ (codes "-rc" ++ show n))
            (append_pos (show c) (codes "-rc" ++ show n) (show_pos c)),
        match_version-numbers a b c (codes "-rc" ++ show n) refl,
        match_tag-rc n,
      )
      refl

-- A release candidate collates below its release, candidates of one release collate by their
-- numbers, and the two-number version collates below every candidate of its series. Only the
-- release passes the "not rc" filter.
pub collate-candidate :
    (a b c n k : ℕ)
    → n < k
    → (collate_mdb_version (candidate a b c n) (stable a b c) ≡ ok (negsuc 0))
      × (collate_mdb_version (candidate a b c n) (candidate a b c k) ≡ ok (negsuc 0))
      × (collate_mdb_version (release a b) (candidate a b c n) ≡ ok (negsuc 0))
      × (mdb_version_not_rc (candidate a b c n) ≡ ok false)
      × (mdb_version_not_rc (stable a b c) ≡ ok true)
unfolding collate_mdb_version mdb_version_not_rc compare_tuples less
collate-candidate a b c n k h = ground (
  arith,
  version_tup-candidate a b c n,
  version_tup-candidate a b c k,
  version_tup-stable a b c,
  version_tup-release a b,
)
