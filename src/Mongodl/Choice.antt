-- ===== src/Mongodl/Choice.antt =====
-- The build that a run of mongodl.py asks for: the defaults of `main`, `infer_arch`, and the first
-- half of `_dl_component`.
pub mod Checked
use drivers_evergreen_tools.Common.{
  Bool, true, false, ◌&&◌, ◌||◌, not, List, [], ◌∷◌, Option, none, some, if◌then◌else◌, Result, ok,
  raise, ◌>>=◌,
}
use drivers_evergreen_tools.Common.Text.{Text, codes, text_eq}
use drivers_evergreen_tools.Mongodl.Builds.{
  Error, no_download, no_key, null_url, query, Wanted, SignatureUrl, published_build_url,
  latest_build_url,
}
use drivers_evergreen_tools.Mongodl.Database.{Db}
use drivers_evergreen_tools.Mongodl.Target as Target
use drivers_evergreen_tools.Mongodl.Target.{infer_target}

-- `platform.machine() or platform.processor()`, under the names of the downloads.
unfoldable pub infer_arch : Text → Text → Text
infer_arch machine processor =
    let a = if text_eq machine [] then processor else machine in
    if text_eq a (codes "AMD64") then codes "x86_64" else a

-- `PERF_VERSIONS`, and "latest-build" by default.
unfoldable pub wanted_version : Option Text → Text
wanted_version none = codes "latest-build"
wanted_version (some version) =
    if text_eq version (codes "v6.0-perf")
    then codes "6.0.6"
    else if text_eq version (codes "v8.0-perf")
    then codes "8.0.1"
    else version

or_default : Text → Option Text → Text
or_default default none = default
or_default default (some value) = value

-- None, or "auto".
is_auto : Option Text → Bool
is_auto none = true
is_auto (some value) = text_eq value (codes "auto")

unfoldable pub wanted_arch : Option Text → Text → Text → Text
unfolding or_default is_auto
wanted_arch arch machine processor =
    if is_auto arch then infer_arch machine processor else or_default [] arch

unfoldable pub wanted_target :
    Option Text → Text → List (Option Text) → Text → Result Target.Error Text
unfolding or_default is_auto
wanted_target target platform cands version =
    if is_auto target then infer_target platform cands (some version) else ok (or_default [] target)

unfoldable pub wanted_edition : Option Text → Text
unfolding or_default
wanted_edition edition = or_default (codes "enterprise") edition

unfoldable pub wanted_component : Option Text → Text
unfolding or_default
wanted_component component = or_default (codes "archive") component

-- The URL, the checksum of a published build, and where the signature of a latest build is.
pub record Chosen : Type 0 where
  pub dl_url : Text
  pub sha256 : Option Text
  pub signature : Option SignatureUrl

published : Result Error (Text × Option Text) → Result Error Chosen
published (ok (url, sum)) = ok (record { dl_url = url; sha256 = sum; signature = none })
published (raise e) = raise e

latest : Result Error (Text × SignatureUrl) → Result Error Chosen
latest (ok (url, sig)) = ok (record { dl_url = url; sha256 = none; signature = some sig })
latest (raise e) = raise e

-- The target that the latest release has in place of "osx".
abbrev pub renamed : Wanted → Wanted
renamed w = record w { target = if text_eq w.target (codes "osx") then codes "macos" else w.target }

-- The handler of the ValueError.
or_latest_release :
    Bool
    → Result Error (Text × Option Text)
    → Result Error (Text × Option Text)
    → Result Error (Text × Option Text)
or_latest_release falls_back (ok found) later = ok found
or_latest_release falls_back (raise no_download) later =
    if falls_back then later else raise no_download
or_latest_release falls_back (raise (no_key key)) later = raise (no_key key)
or_latest_release falls_back (raise null_url) later = raise null_url
or_latest_release falls_back (raise (query e)) later = raise (query e)

module _ (loads : Text → Text → Option (Option Text))
    (presigned_urls : Text → Text → Option (Text × Text)) (db : Db) where
  unfoldable pub choose_build : Text → Wanted → Option Text → Result Error Chosen
  unfolding published latest or_latest_release
  choose_build version w branch =
      if text_eq version (codes "latest-build") || text_eq version (codes "latest")
      then latest (latest_build_url loads presigned_urls db w branch)
      else published (
          or_latest_release
            (text_eq w.component (codes "crypt_shared")
              && not (text_eq version (codes "latest-release")))
            (published_build_url loads presigned_urls db version w)
            (published_build_url loads presigned_urls db (codes "latest-release") (renamed w)))
