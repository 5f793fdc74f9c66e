-- ===== src/Mongodl/Listing.antt =====
-- Runs of the target inference and of the download list of mongodl.py at concrete inputs.
use drivers_evergreen_tools.Common.{
  ◌≡◌, ◌≢◌, refl, true, false, List, [], ◌∷◌, Option, none, some, All, ok, if◌then◌else◌,
}
use drivers_evergreen_tools.Common.Text.{Text, codes, text_eq}
use drivers_evergreen_tools.Common.Text.Decimal.{span_digits}
use drivers_evergreen_tools.Common.Text.Regex.{expect, expect_all, at_end, runs, first_match}
use drivers_evergreen_tools.Mongodl.Pattern.{fnmatch, tokens, tokens_match}
use drivers_evergreen_tools.Mongodl.Url.{is_prefix}
use drivers_evergreen_tools.Mongodl.Version.{version_tup, less, compare_tuples, collate_mdb_version}
use drivers_evergreen_tools.Mongodl.Target.{
  get, first_matching, lower, upstream, target_of, find_id, find_version_id,
  infer_target_from_os_release, has_value, is_distro_target,
}
use drivers_evergreen_tools.Mongodl.Database.{
  Download, Release, Db, Filters, DownloadableComponent, normalize_target, is_missing,
  insert_versions, import_json_data, row_matches, filtered, insert_sorted, ordered, iter_available,
}
use drivers_evergreen_tools.Mongodl.Database.Import.{IsKnown, import_json_data-last}
use drivers_evergreen_tools.Mongodl.Database.Order.{
  NewestFirst, Matches, iter_available-NewestFirst,
}
use drivers_evergreen_tools.Mongodl.Builds.{
  Wanted, published_build_url, latest_build_url, legacy_latest_build_url, beside,
}
use drivers_evergreen_tools.Mongodl.Choice.{Chosen}
use drivers_evergreen_tools.Mongodl.Builds.Arch.{latest_build_url-rhel80}

ubuntu : target_of (codes "pop") (codes "22.04") ≡ ok (codes "ubuntu2204")
unfolding target_of upstream get first_matching lower fnmatch tokens tokens_match text_eq
ubuntu = refl

os_release :
    infer_target_from_os_release (codes "NAME=x\nVERSION_ID=\"12\"\nID=debian\n")
    ≡ ok (codes "debian12")
unfolding infer_target_from_os_release find_id find_version_id expect expect_all target_of upstream
    get first_matching lower fnmatch tokens tokens_match text_eq
os_release = refl

abbrev download : Text → Download
download target = record {
  target = some target;
  arch = some (codes "x86_64");
  edition = codes "enterprise";
  archive_url = codes "u";
  debug_symbols = none;
  fields = record { key = codes "archive"; has_url = true; value = codes "{}" } ∷ [];
  json = codes "{}";
}

abbrev version : Text → Text → Release
version name target = record {
  version = name;
  githash = codes "g";
  date = codes "d";
  downloads = download target ∷ [];
}

abbrev old : Release
old = version (codes "7.0.1") (codes "beos")

abbrev new : Release
new = version (codes "8.0.0") (codes "rhel80")

new-IsKnown : IsKnown new
unfolding IsKnown is_missing normalize_target is_distro_target has_value is_prefix text_eq
new-IsKnown = refl

import_json_data-last_example : (db : Db) × (import_json_data true (old ∷ new ∷ []) ≡ some db)
import_json_data-last_example = import_json_data-last old (new ∷ []) new-IsKnown

abbrev db : Db
db =
    (insert_versions (old ∷ new ∷ [])
      ([], record { mdl_versions = []; mdl_downloads = []; mdl_components = [] })).1

db-import_json_data : import_json_data false (old ∷ new ∷ []) ≡ some db
unfolding import_json_data insert_versions is_missing normalize_target is_distro_target has_value
    is_prefix text_eq
db-import_json_data = refl

abbrev everything : Filters
everything = record {
  by_version = none;
  by_target = none;
  by_arch = some (codes "x86_64");
  by_edition = none;
  by_component = none;
}

abbrev row : Text → Text → DownloadableComponent
row name target = record {
  version = name;
  target = target;
  arch = codes "x86_64";
  edition = codes "enterprise";
  key = codes "archive";
  data_json = codes "{}";
}

abbrev rows : List DownloadableComponent
rows = row (codes "8.0.0") (codes "rhel8") ∷ row (codes "7.0.1") (codes "beos") ∷ []

db_rows : iter_available everything db ≡ ok rows
unfolding iter_available filtered row_matches ordered insert_sorted insert_versions is_missing
    normalize_target is_distro_target has_value is_prefix text_eq collate_mdb_version version_tup
    compare_tuples less expect at_end runs first_match span_digits
db_rows = refl

iter_available-NewestFirst_example : NewestFirst rows × All (Matches everything) rows
iter_available-NewestFirst_example = iter_available-NewestFirst everything db rows db_rows

abbrev loads : Text → Text → Option (Option Text)
loads json key = some (some (codes "value"))

abbrev no_credentials : Text → Text → Option (Text × Text)
no_credentials key sig_key = none

-- The checksum is null.
abbrev unchecked : Text → Text → Option (Option Text)
unchecked json key = if text_eq key (codes "sha256") then some none else some (some (codes "value"))

abbrev on_rhel : Wanted
on_rhel = record {
  target = codes "rhel8";
  arch = codes "x86_64";
  edition = codes "enterprise";
  component = codes "archive";
}

abbrev no_check : Chosen
no_check = record { dl_url = codes "value"; sha256 = none; signature = none }

abbrev on_arch : Wanted
on_arch = record {
  target = codes "rhel80";
  arch = codes "x86_64";
  edition = codes "enterprise";
  component = codes "archive";
}

legacy :
    legacy_latest_build_url on_arch (some (codes "v8.0"))
    ≡ codes
        "https://downloads.10gen.com/linux/mongodb-linux-x86_64-enterprise-rhel80-v8.0-latest.tgz"
unfolding legacy_latest_build_url text_eq
legacy = refl

latest_build_url-rhel80_example :
    (published_build_url loads no_credentials db (codes "8.0.0") on_arch ≢ ok ([], none))
    × (latest_build_url loads no_credentials db on_arch none ≢ ok ([], beside []))
latest_build_url-rhel80_example =
    latest_build_url-rhel80 loads no_credentials false (old ∷ new ∷ []) db db-import_json_data
      (codes "8.0.0") on_arch none ([], none) ([], beside []) refl
