-- ===== src/Mongodl/Tests.antt =====
-- Runs of mongodl.py at concrete inputs.
use drivers_evergreen_tools.Common.{
  ◌≡◌, ◌↔◌, refl, Bool, true, false, List, [], ◌∷◌, some, none, All, ok, raise, arith,
}
use drivers_evergreen_tools.Common.Exec.{◌>>=◌, pure, continue, stop}
use drivers_evergreen_tools.Common.Int.{negsuc}
use drivers_evergreen_tools.Common.Text.{Text, codes, text_eq}
use drivers_evergreen_tools.Common.Text.Decimal.{span_digits}
use drivers_evergreen_tools.Common.Text.Regex.{expect, at_end, runs, first_match}
use drivers_evergreen_tools.Mongodl.Version.{version_tup, less, compare_tuples, collate_mdb_version}
use drivers_evergreen_tools.Mongodl.Pattern.{
  is_void, parts_of, pathjoin, join, keep_parts, split_at, anchor, any_returns, test_parts,
  test_pattern, fnmatch, tokens, tokens_match,
}
use drivers_evergreen_tools.Mongodl.Pattern.Paths.{IsPart}
use drivers_evergreen_tools.Mongodl.Pattern.Globs.{Globs, test_pattern-Globs}
use drivers_evergreen_tools.Mongodl.Files.{
  Files, file, mkdir, write_file, put, is_dir, make_dir, location_eq,
}
use drivers_evergreen_tools.Mongodl.Extract.{
  broken, Member, Options, expand_members, maybe_extract_member, pattern_path, place, destination,
  descend, detours, detours_of, enter_all, is_up, is_anchor, on_files,
}
use drivers_evergreen_tools.Mongodl.Extract.Frame.{StaysInside, IsAround, expand_members-Effect}
use drivers_evergreen_tools.Mongodl.Files.Mkdir.{Effect}

abbrev v4 : Text
v4 = codes "4.4.29"

abbrev v5rc : Text
v5rc = codes "5.0.0-rc3"

abbrev v5 : Text
v5 = codes "5.0.0"

v4-v5rc : collate_mdb_version v4 v5rc ≡ ok (negsuc 0)
unfolding collate_mdb_version version_tup compare_tuples less expect at_end runs first_match
    span_digits text_eq
v4-v5rc = refl

v5rc-v5 : collate_mdb_version v5rc v5 ≡ ok (negsuc 0)
unfolding collate_mdb_version version_tup compare_tuples less expect at_end runs first_match
    span_digits text_eq
v5rc-v5 = refl

abbrev member_path : List Text
member_path = codes "mongodb" ∷ codes "bin" ∷ codes "mongod" ∷ []

abbrev mongo_glob : List Text
mongo_glob = codes "**" ∷ codes "mongo*" ∷ []

member_path_parts : All IsPart member_path
unfolding IsPart is_void text_eq
member_path_parts = ground arith

mongo_glob_parts : All IsPart mongo_glob
unfolding IsPart is_void text_eq
mongo_glob_parts = ground arith

globs_bin_mongod :
    test_pattern (parts_of (codes "mongodb//./bin/mongod")) (some (parts_of (codes "**/mongo[cd]")))
    ≡ some true
unfolding test_pattern test_parts parts_of pathjoin join keep_parts split_at is_void anchor
    any_returns fnmatch tokens tokens_match text_eq
globs_bin_mongod = refl

test_pattern-Globs_example :
    (found : Bool) × (test_pattern member_path (some mongo_glob) ≡ some found)
    × ((found ≡ true) ↔ Globs member_path mongo_glob)
test_pattern-Globs_example =
    test_pattern-Globs member_path mongo_glob member_path_parts mongo_glob_parts

abbrev members : List Member
members =
    record {
      name = codes "mongodb/bin/";
      is_dir = true;
      mode = 0o755;
      content = raise (broken (codes "dir"));
    }
    ∷ record {
      name = codes "mongodb/bin/mongod";
      is_dir = false;
      mode = 0o755;
      content = ok (codes "elf");
    }
    ∷ record {
      name = codes "mongodb/README";
      is_dir = false;
      mode = 0o644;
      content = ok (codes "hi");
    }
    ∷ []

abbrev only_mongod : Bool → Options
only_mongod test = record {
  out = codes "out" ∷ [];
  pattern = some (codes "**/mongod");
  strip = 1;
  test = test;
}

abbrev no_files : Files
no_files q = none

abbrev after_real : Files
after_real = (expand_members 0 (only_mongod false) members no_files).1

real_run : expand_members 0 (only_mongod false) members no_files ≡ (ok 1, after_real)
unfolding expand_members test_pattern test_parts parts_of pathjoin join keep_parts split_at is_void
    anchor any_returns fnmatch tokens tokens_match text_eq maybe_extract_member pattern_path place
    mkdir write_file destination detours_of detours enter_all descend is_up is_anchor on_files ◌>>=◌
    pure continue stop is_dir make_dir put location_eq
real_run = refl

-- A name with `..` leads out of the output directory.
abbrev climbing : Member
climbing = record {
  name = codes "a/../../x";
  is_dir = false;
  mode = 0o644;
  content = ok (codes "hi");
}

abbrev all_of : Options
all_of = record { out = codes "out" ∷ []; pattern = none; strip = 0; test = false }

climbing_out :
    (expand_members 0 all_of (climbing ∷ []) no_files).1 (codes "x" ∷ [])
    ≡ some (file (codes "hi") 0o644)
unfolding expand_members test_pattern parts_of pathjoin join keep_parts split_at is_void anchor
    text_eq maybe_extract_member pattern_path place mkdir write_file destination detours_of detours
    enter_all descend is_up is_anchor on_files ◌>>=◌ pure continue stop is_dir make_dir put
    location_eq
climbing_out = refl

members_inside : All StaysInside members
unfolding parts_of keep_parts split_at is_void anchor text_eq
members_inside = (
  record { relative = refl; downward = ground arith },
  (
    record { relative = refl; downward = ground arith },
    (record { relative = refl; downward = ground arith }, tt),
  ),
)

expand_members-Effect_example : Effect (IsAround (codes "out" ∷ [])) no_files after_real
expand_members-Effect_example =
    expand_members-Effect 0 (only_mongod false) members no_files members_inside
