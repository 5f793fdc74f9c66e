-- ===== src/Release/Tests.antt =====
-- Runs of the script on a small history, and the theorems at that data.
use drivers_evergreen_tools.Common.{
  ◌≡◌, ◌≢◌, refl, true, false, none, some, List, [], ◌∷◌, ok, raise, All,
}
use drivers_evergreen_tools.Common.Text.{Text, codes, split}
use drivers_evergreen_tools.Common.Text.Decimal.{show, span_digits}
use drivers_evergreen_tools.Release.{
  Version, Run, unknown_level, parse_version, parsed_versions, less, latest_version, bump,
  format_tag, main, outputs,
}
use drivers_evergreen_tools.Release.Next.{TagBelow, main-fresh}

abbrev history : Text
history = codes "v1.9.3\nv1.10.0\nvery-old\n"

abbrev v1_10 : Version
v1_10 = record { major = 1; minor = 10; patch = 0 }

abbrev v1_11 : Version
v1_11 = record { major = 1; minor = 11; patch = 0 }

abbrev tags : List Text
tags = codes "v1.9.3" ∷ codes "v1.10.0" ∷ codes "very-old" ∷ []

split-history : split history ≡ tags
unfolding split
split-history = refl

latest_history : latest_version tags ≡ some v1_10
unfolding latest_version parsed_versions parse_version less span_digits
latest_history = refl

bump_minor : bump v1_10 "minor" ≡ ok v1_11
unfolding bump
bump_minor = refl

bump_unknown : bump v1_10 "tiny" ≡ raise (unknown_level "tiny")
unfolding bump
bump_unknown = refl

trailing_text : parse_version (codes "v1.2.3-rc1") ≡ none
unfolding parse_version span_digits
trailing_text = refl

format_v1_11 : format_tag v1_11 ≡ codes "v1.11.0"
unfolding format_tag show
format_v1_11 = refl

abbrev minor_run : Run
minor_run = record {
  status = 0;
  printed = codes "current-version=v1.10.0" ∷ codes "next-version=v1.11.0" ∷ [];
  complained = false;
  appended = some (codes "current-version=v1.10.0\nnext-version=v1.11.0\n");
}

main_minor : main (some history) "minor" true ≡ ok minor_run
unfolding main latest_version parsed_versions parse_version less span_digits bump format_tag show
    split
main_minor = refl

main-fresh_example :
    (current : Version) × (next : Version) × (minor_run.printed ≡ outputs current next)
    × (latest_version (split history) ≡ some current)
    × (bump current "minor" ≡ ok next)
    × All (λ tag. tag ≢ format_tag next) (split history)
    × All (TagBelow next) (split history)
main-fresh_example = main-fresh history "minor" true minor_run main_minor refl
