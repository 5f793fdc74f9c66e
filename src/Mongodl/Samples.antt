-- ===== src/Mongodl/Samples.antt =====
-- Runs of whole downloads of mongodl.py at concrete inputs.
use drivers_evergreen_tools.Common.{
  ℕ, ◌≡◌, ◌⊎◌, refl, true, false, [], ◌++◌, Option, none, some, Result, ok, raise,
}
use drivers_evergreen_tools.Common.Exec.{◌>>=◌, pure, stop, continue}
use drivers_evergreen_tools.Common.Text.{Text, codes, text_eq}
use drivers_evergreen_tools.Mongodl.Pattern.{parts_of, anchor, keep_parts, split_at, is_void}
use drivers_evergreen_tools.Mongodl.Url.{
  strip_presigned_query, is_presigned, urlsplit, cut, contains, is_prefix, file_name,
}
use drivers_evergreen_tools.Mongodl.Cache.{
  Store, Headers, Reply, response, url_error, unreachable, cached_at, cached_eq, request_headers,
  write_cached, insert_row, download_file,
}
use drivers_evergreen_tools.Mongodl.Extract.{
  Options, ExpandResult, empty, expand_archive, suffix_of, expand_tgz, expand_members,
}
use drivers_evergreen_tools.Mongodl.Database.{Db}
use drivers_evergreen_tools.Mongodl.Retry.{Failure}
use drivers_evergreen_tools.Mongodl.Builds.{
  Wanted, beside, latest_build_url, legacy_latest_build_url, archive_key,
}
use drivers_evergreen_tools.Mongodl.Choice.{Chosen, choose_build}
use drivers_evergreen_tools.Mongodl.Component.{World, no_gpg, Outside, expand, attempt}
use drivers_evergreen_tools.Mongodl.Component.Checked.{Untouched, Expanded, attempt-Accepted}
use drivers_evergreen_tools.Mongodl.Refresh.{
  State, download_failed, transaction, in_transaction, begun, refresh_full_json, rolled_back,
}

abbrev no_db : Db
no_db = record { mdl_versions = []; mdl_downloads = []; mdl_components = [] }

abbrev on_mac : Wanted
on_mac = record {
  target = codes "macos";
  arch = codes "arm64";
  edition = codes "enterprise";
  component = codes "crypt_shared";
}

abbrev mac_url : Text
mac_url =
    codes "https://downloads.10gen.com/osx/mongo_crypt_shared_v1-macos-arm64-enterprise-latest.tgz"

abbrev mac_build : Chosen
mac_build = record {
  dl_url = mac_url;
  sha256 = none;
  signature = some (beside (mac_url ++ codes ".sig"));
}

abbrev no_json : Text → Text → Option (Option Text)
no_json json key = none

abbrev no_credentials : Text → Text → Option (Text × Text)
no_credentials key sig_key = none

choose_mac : choose_build no_json no_credentials no_db (codes "latest") on_mac none ≡ ok mac_build
unfolding choose_build latest_build_url legacy_latest_build_url archive_key contains is_prefix
    text_eq
choose_mac = refl

abbrev offline : ℕ → Text → Headers → Reply
offline n url headers = url_error

abbrev identity : Text → Text
identity t = t

abbrev empty_store : Store
empty_store = record { rows = λ u. none; files = λ p. none; requests = 0 }

abbrev state : State
state = record { store = empty_store; tables = no_db; journal = none }

abbrev failed : State
failed = record state { store = record empty_store { requests = 1 } }

refresh_offline :
    refresh_full_json offline identity (λ json. none) true (codes "https://a/full.json") state
    ≡ (raise (download_failed unreachable), failed)
unfolding refresh_full_json transaction in_transaction begun download_file request_headers ◌>>=◌
    continue stop rolled_back
refresh_offline = refl

abbrev outside : Outside
outside = record {
  serve = λ n url headers.
      response (record {
        got_etag = none;
        got_modtime = none;
        content_length = some 3;
        body = codes "tgz";
      });
  sha256 = identity;
  verify = λ content sig. no_gpg (codes "no keyboxd");
  amazon2023 = true;
  open_tar = λ content name. ok [];
  open_zip = λ content name. ok [];
}

abbrev options : Options
options = record { out = []; pattern = none; strip = 0; test = false }

abbrev world : World
world = record { store = empty_store; placed = λ q. none }

abbrev url : Text
url = codes "https://a/f.tgz"

abbrev attempted : Result Failure ExpandResult × World
attempted = attempt outside options url (some (codes "tgz")) (some (beside (codes "sig"))) world

attempt_run :
    attempt outside options url (some (codes "tgz")) (some (beside (codes "sig"))) world
    ≡ (ok empty, attempted.1)
unfolding attempt ◌>>=◌ continue pure stop download_file request_headers write_cached insert_row
    cached_at cached_eq strip_presigned_query is_presigned urlsplit cut contains is_prefix file_name
    parts_of anchor keep_parts split_at is_void text_eq expand expand_archive suffix_of expand_tgz
    expand_members
attempt_run = refl

attempt-Accepted_example :
    Untouched outside world
      (attempt outside options url (some (codes "tgz")) (some (beside (codes "sig"))) world)
    ⊎ Expanded outside options
        (some (codes "tgz"))
        (some (beside (codes "sig")))
        world
        (attempt outside options url (some (codes "tgz")) (some (beside (codes "sig"))) world)
attempt-Accepted_example =
    attempt-Accepted outside options url (some (codes "tgz")) (some (beside (codes "sig"))) world
