-- ===== src/Release.antt =====
-- .github/scripts/bump_version.py: the next release version from the tags in git.
-- What `git tag` prints, or its error, is an argument of `main`; so is GITHUB_OUTPUT.
pub mod Order
pub mod RoundTrip
pub mod Latest
pub mod Next
mod Tests
use drivers_evergreen_tools.Common.{
  ℕ, ◌+◌, String, str_eq, Bool, true, false, ◌||◌, ◌&&◌, Option, none, some, List, [], ◌∷◌, ◌++◌,
  ltb, ◌==◌, if◌then◌else◌, Result, ok, raise, ◌>>=◌,
}
use drivers_evergreen_tools.Common.Text.{Text, codes, split}
use drivers_evergreen_tools.Common.Text.Regex.{expect, at_end, ◌>>?◌}
use drivers_evergreen_tools.Common.Text.Decimal.{value, show, span_digits}

pub record Version : Type 0 where
  pub major : ℕ
  pub minor : ℕ
  pub patch : ℕ

-- The group `(\d+)`: at least one digit, as a number, and the text behind it.
parse_number : Text → Option (ℕ × Text)
parse_number s =
    let (ds, rest) = span_digits s in
    elim ds [ [] ↦ none | c ∷ more ↦ some (value 0 (c ∷ more), rest) ]

-- `TAG_PATTERN` and `parse_version`.
unfoldable pub parse_version : Text → Option Version
unfolding parse_number expect at_end
parse_version tag = expect b'v' tag >>? λ s. parse_number s >>? λ (major, s₁).
    expect b'.' s₁ >>? λ s₂. parse_number s₂ >>? λ (minor, s₃). expect b'.' s₃ >>? λ s₄.
    parse_number s₄ >>? λ (patch, s₅).
    if at_end s₅ then some (record { major = major; minor = minor; patch = patch }) else none

-- Python's `<` on the tuples (major, minor, patch).
unfoldable pub less : Version → Version → Bool
less v w =
    ltb v.major w.major
    || (v.major == w.major && (ltb v.minor w.minor || (v.minor == w.minor && ltb v.patch w.patch)))

-- The list comprehension of `latest_version`.
unfoldable pub parsed_versions : List Text → List Version
parsed_versions [] = []
parsed_versions (tag ∷ tags) =
    let rest = parsed_versions tags in elim (parse_version tag) [ none ↦ rest | some v ↦ v ∷ rest ]

-- `max`: the first of the greatest.
unfoldable pub max_version : Version → List Version → Version
max_version best [] = best
max_version best (v ∷ vs) = max_version (if less best v then v else best) vs

unfoldable pub latest_version : List Text → Option Version
unfolding max_version
latest_version tags = elim (parsed_versions tags) [ [] ↦ none | v ∷ vs ↦ some (max_version v vs) ]

-- The ValueError of `bump`, with the level that it names.
pub data Error : Type 0 where
  unknown_level : String → Error

unfoldable pub bump : Version → String → Result Error Version
bump v level =
    if str_eq level "patch"
    then ok (record v { patch = v.patch + 1 })
    else if str_eq level "minor"
    then ok (record v { minor = v.minor + 1; patch = 0 })
    else if str_eq level "major"
    then ok (record { major = v.major + 1; minor = 0; patch = 0 })
    else raise (unknown_level level)

unfoldable pub format_tag : Version → Text
format_tag v = b'v' ∷ (show v.major ++ b'.' ∷ (show v.minor ++ b'.' ∷ show v.patch))

-- What a run of the script does: the exit status, the lines printed, whether an error was written,
-- and the text appended to the file that GITHUB_OUTPUT names.
pub record Run : Type 0 where
  pub status : ℕ
  pub printed : List Text
  pub complained : Bool
  pub appended : Option Text

abbrev pub failure : Run
failure = record { status = 1; printed = []; complained = true; appended = none }

-- `git tag --list v*`: none if the command fails, or its output.
unfoldable pub list_tags : Option Text → Option (List Text)
list_tags none = none
list_tags (some output) = some (split output)

abbrev outputs : Version → Version → List Text
outputs current next =
    (codes "current-version=" ++ format_tag current)
    ∷ (codes "next-version=" ++ format_tag next)
    ∷ []

abbrev joined_lines : List Text → Text
joined_lines [] = []
joined_lines (line ∷ lines) = line ++ 10 ∷ joined_lines lines

report : Version → Bool → Version → Run
report current to_file next = record {
  status = 0;
  printed = outputs current next;
  complained = false;
  appended = if to_file then some (joined_lines (outputs current next)) else none;
}

-- `main` once the latest version is known.
from_version : String → Bool → Option Version → Result Error Run
from_version level to_file none = ok failure
from_version level to_file (some current) = do
  next ← bump current level
  ok (report current to_file next)

from_tags : String → Bool → Option (List Text) → Result Error Run
from_tags level to_file none = ok failure
from_tags level to_file (some tags) = from_version level to_file (latest_version tags)

-- `main`, after argparse has read the level; `to_file` tells whether GITHUB_OUTPUT is set.
unfoldable pub main : Option Text → String → Bool → Result Error Run
unfolding report list_tags from_version from_tags
main git level to_file = from_tags level to_file (list_tags git)
