-- ===== src/Mongodl/Version.antt =====
-- `version_tup` of mongodl.py, and the collation and the SQL functions over it.
pub mod Collation
pub mod Shapes
use drivers_evergreen_tools.Common.{
  ℕ, zero, suc, ◌+◌, ◌<◌, ◌≡◌, Bool, true, false, ◌&&◌, ◌||◌, List, [], ◌∷◌, ◌++◌, Option, none,
  some, ltb, leb, ◌==◌, if◌then◌else◌, Result, ok, raise, ◌>>=◌,
}
use drivers_evergreen_tools.Common.Int.{ℤ, pos, negsuc}
use drivers_evergreen_tools.Common.Text.{Text, codes, text_eq}
use drivers_evergreen_tools.Common.Text.Decimal.{value, span_digits}
use drivers_evergreen_tools.Common.Text.Regex.{expect, at_end, runs, first_match, ◌>>?◌}

-- The AssertionError for a text that is no version, and the KeyError for an unknown tag.
pub data Error : Type 0 where
  no_version : Error
  unknown_tag : Text → Error

pub record Tuple : Type 0 where
  pub major : ℕ
  pub minor : ℕ
  pub patch : ℕ
  pub tag : ℕ
  pub tagnum : ℕ

abbrev pub stable_max_rc : ℕ
stable_max_rc = 9999

-- The group `(\d+)`: its number, and the text behind it.
parse_number : Text → Option (ℕ × Text)
parse_number s =
    let (ds, rest) = span_digits s in
    elim ds [ [] ↦ none | c ∷ more ↦ some (value 0 (c ∷ more), rest) ]

-- `MAJOR_VERSION_RE`
match_major : Text → Option (ℕ × ℕ)
match_major s = parse_number s >>? λ (major, s₁). expect b'.' s₁ >>? λ s₂.
    parse_number s₂ >>? λ (minor, s₃). if at_end s₃ then some (major, minor) else none

is_lower : ℕ → Bool
is_lower c = leb b'a' c && leb c b'z'

-- The group `(?:-([a-z]+)(\d+))?`, where it matches.
match_tag : Text → Option (Text × ℕ)
match_tag s = expect b'-' s >>? λ tagged.
    first_match (runs is_lower tagged)
      λ tag rest. parse_number rest >>? λ (number, _). some (tag, number)

-- `VERSION_RE`, which does not look at what stands behind the match.
match_version : Text → Option (ℕ × ℕ × ℕ × Option (Text × ℕ))
match_version s = parse_number s >>? λ (major, s₁). expect b'.' s₁ >>? λ s₂.
    parse_number s₂ >>? λ (minor, s₃). expect b'.' s₃ >>? λ s₄.
    parse_number s₄ >>? λ (patch, s₅). some (major, minor, patch, match_tag s₅)

tag_number : Text → Result Error ℕ
tag_number tag =
    if text_eq tag (codes "alpha")
    then ok 1
    else if text_eq tag (codes "beta")
    then ok 2
    else if text_eq tag (codes "rc")
    then ok 3
    else raise (unknown_tag tag)

abbrev tuple : ℕ → ℕ → ℕ → ℕ → ℕ → Tuple
tuple major minor patch tag tagnum = record {
  major = major;
  minor = minor;
  patch = patch;
  tag = tag;
  tagnum = tagnum;
}

tagged : ℕ → ℕ → ℕ → Option (Text × ℕ) → Result Error Tuple
tagged major minor patch none = ok (tuple major minor patch stable_max_rc 0)
tagged major minor patch (some (tag, number)) = do
  n ← tag_number tag
  ok (tuple major minor patch n number)

full_version : Option (ℕ × ℕ × ℕ × Option (Text × ℕ)) → Result Error Tuple
full_version none = raise no_version
full_version (some (major, minor, patch, tag)) = tagged major minor patch tag

either_version : Option (ℕ × ℕ) → Text → Result Error Tuple
either_version (some (major, minor)) version = ok (tuple major minor 0 0 0)
either_version none version = full_version (match_version version)

unfoldable pub version_tup : Text → Result Error Tuple
unfolding either_version full_version tagged tag_number match_version match_tag match_major
    parse_number is_lower
version_tup version = either_version (match_major version) version

-- Python's `<` on the tuples.
unfoldable pub less : Tuple → Tuple → Bool
less v w =
    ltb v.major w.major
    || (v.major == w.major
        && (ltb v.minor w.minor
            || (v.minor == w.minor
                && (ltb v.patch w.patch
                    || (v.patch == w.patch
                        && (ltb v.tag w.tag || (v.tag == w.tag && ltb v.tagnum w.tagnum)))))))

unfoldable pub compare_tuples : Tuple → Tuple → ℤ
unfolding less
compare_tuples lhs rhs = if less lhs rhs then negsuc 0 else if less rhs lhs then pos 1 else pos 0

unfoldable pub collate_mdb_version : Text → Text → Result Error ℤ
collate_mdb_version left right = do
  lhs ← version_tup left
  rhs ← version_tup right
  ok (compare_tuples lhs rhs)

unfoldable pub mdb_version_not_rc : Text → Result Error Bool
mdb_version_not_rc version = do tup ← version_tup version; ok (tup.tag == stable_max_rc)

unfoldable pub mdb_version_rapid : Text → Result Error Bool
mdb_version_rapid version = do tup ← version_tup version; ok (ltb 0 tup.minor)
