-- ===== src/Release/Next.antt =====
-- What a run of the script reports.
use drivers_evergreen_tools.Common.{
  ◌≡◌, ◌≢◌, refl, true, false, Bool, String, Option, none, some, List, arith, All, All-map, ok,
  >>=-eq-ok, if◌then◌else◌, inl, inr, ◌⊎◌,
}
use drivers_evergreen_tools.Common.Text.{Text, split}
use drivers_evergreen_tools.Release.{
  Version, parse_version, less, latest_version, bump, format_tag, Run, list_tags, main, failure,
  from_version, from_tags, report, joined_lines, outputs,
}
use drivers_evergreen_tools.Release.Order.{less_weaken, bump_least}
use drivers_evergreen_tools.Release.Latest.{TagBound, latest_version-greatest}
use drivers_evergreen_tools.Release.RoundTrip.{parse_version-format_tag}

-- The tag spells a version below `next`.
abbrev pub TagBelow : Version → Text → Type 0
TagBelow next tag = (v : Version) → parse_version tag ≡ some v → less v next ≡ true

below_next :
    (m next : Version) → less m next ≡ true → (tag : Text) → TagBound m tag → TagBelow next tag
below_next m next h tag bound v e = less_weaken v m next (bound v e) h

fresh_tag :
    (m next : Version) → less m next ≡ true → (tag : Text) → TagBound m tag → tag ≢ format_tag next
fresh_tag m next h tag bound e =
    let k : less m next ≡ false = bound next (rw e (parse_version-format_tag next)) in cc

-- The parts of a run that succeeds.
from_version_parts :
    (level : String) (to_file : Bool) (r : Run) (v : Option Version)
    → from_version level to_file v ≡ ok r
    → r.status ≡ 0
    → (current : Version) × (next : Version) × (v ≡ some current)
      × (bump current level ≡ ok next)
      × (report current to_file next ≡ r)
unfolding from_version
from_version_parts level to_file r none h z = ground arith
from_version_parts level to_file r (some current) h z =
    let (next, e, k) = >>=-eq-ok (bump current level) _ h in (current, next, refl, e, ground arith)

from_tags_parts :
    (level : String) (to_file : Bool) (r : Run) (o : Option (List Text))
    → from_tags level to_file o ≡ ok r
    → r.status ≡ 0
    → (tags : List Text) × (o ≡ some tags)
      × (from_version level to_file (latest_version tags) ≡ ok r)
unfolding from_tags
from_tags_parts level to_file r none h z = ground arith
from_tags_parts level to_file r (some tags) h z = (tags, refl, h)

-- A run that succeeds announces a tag that no existing tag equals, which spells the version above
-- every version that a tag spells; the current version that it prints is one of the tags'.
pub main-fresh :
    (output : Text) (level : String) (to_file : Bool) (r : Run)
    → main (some output) level to_file ≡ ok r
    → r.status ≡ 0
    → (current : Version) × (next : Version) × (r.printed ≡ outputs current next)
      × (latest_version (split output) ≡ some current)
      × (bump current level ≡ ok next)
      × All (λ tag. tag ≢ format_tag next) (split output)
      × All (TagBelow next) (split output)
unfolding main
main-fresh output level to_file r h z =
    let (current, next, e, b, p) =
      from_version_parts level to_file r (latest_version (split output)) h z in
    let (bounds, _) = latest_version-greatest (split output) current e in
    let (up, _, _) = bump_least current next level b in
    (
      current,
      next,
      unfold report in ground arith,
      e,
      b,
      All-map (fresh_tag current next up) (split output) bounds,
      All-map (below_next current next up) (split output) bounds,
    )

-- The text for GITHUB_OUTPUT is written exactly when it is set, and is what was printed.
pub main-appended :
    (git : Option Text) (level : String) (to_file : Bool) (r : Run)
    → main git level to_file ≡ ok r
    → r.status ≡ 0
    → r.appended ≡ (if to_file then some (joined_lines r.printed) else none)
unfolding main
main-appended git level to_file r h z =
    let (tags, _, k) = from_tags_parts level to_file r (list_tags git) h z in
    let (current, next, e, b, p) = from_version_parts level to_file r (latest_version tags) k z in
    unfold report in ground arith

-- Without a version among the tags, or without an answer from git, the run fails with status 1,
-- prints and writes nothing, and complains; this does not depend on the level.
pub main-failure :
    (git : Option Text) (level : String) (to_file : Bool)
    → (git ≡ none)
      ⊎ ((output : Text) × (git ≡ some output) × (latest_version (split output) ≡ none))
    → main git level to_file ≡ ok failure
unfolding main
main-failure git level to_file (inl e) = rw e
main-failure git level to_file (inr (output, e, k)) = rw (e, k)
