-- ===== src/Mongosh.antt =====
-- The download of mongosh: `_get_latest_version` and `_download` of mongosh_dl.py. What
-- `Cache.download_file`, the JSON and the extraction give, which are those of mongodl.py, are
-- arguments, and so is the output of `openssl version`.
pub mod Ends
pub mod Suffix
pub mod Tests
use drivers_evergreen_tools.Common.{
  ℕ, zero, suc, ◌≡◌, Bool, true, false, ◌&&◌, ◌||◌, not, List, [], ◌∷◌, ◌++◌, Option, none, some,
  leb, ◌==◌, if◌then◌else◌, Result, ok, raise,
}
use drivers_evergreen_tools.Common.Exec.{Exec, pure, stop, ◌>>=◌, ◌>>◌}
use drivers_evergreen_tools.Common.Text.{Text, codes, text_eq}
use drivers_evergreen_tools.Mongodl.Extract.{ExpandResult, okay}
use drivers_evergreen_tools.Mongodl.Retry.{Failure, transient, run}
use drivers_evergreen_tools.Mongodl.Url.{contains}

-- The names that mongosh has for the architectures.
unfoldable pub mongosh_arch : Text → Text
mongosh_arch arch =
    if text_eq arch (codes "x86_64")
    then codes "x64"
    else if text_eq arch (codes "aarch64")
    then codes "arm64"
    else arch

abbrev any_char : ℕ → Bool
any_char c = not (c == 10)

-- re.match("1.1.1[e-w] ", output): at the front of the output.
unfoldable pub matches_1_1_1 : Text → Bool
matches_1_1_1 (a ∷ b ∷ c ∷ d ∷ e ∷ f ∷ g ∷ s) =
    a == b'1'
    && (any_char b
        && (c == b'1' && (any_char d && (e == b'1' && ((leb b'e' f && leb f b'w') && g == b' ')))))
matches_1_1_1 _ = false

unfoldable pub linux_suffix : Text → Text
unfolding matches_1_1_1
linux_suffix openssl =
    if contains (codes "3.") openssl
    then codes "-openssl3.tgz"
    else if matches_1_1_1 openssl
    then codes "-openssl11.tgz"
    else codes ".tgz"

with_openssl : Result Failure Text → Result Failure Text
unfolding linux_suffix
with_openssl (ok output) = ok (linux_suffix output)
with_openssl (raise e) = raise e

-- `linux` is whether the host is one; `openssl` is run only there.
unfoldable pub suffix_of : Bool → Result Failure Text → Text → Text → Result Failure Text
unfolding with_openssl
suffix_of linux openssl target arch =
    if not (text_eq target (codes "linux"))
    then ok (codes ".zip")
    else if linux && (text_eq arch (codes "x64") || text_eq arch (codes "arm64"))
    then with_openssl openssl
    else ok (codes ".tgz")

unfoldable pub dl_url : Text → Text → Text → Text → Text
dl_url version target arch suffix =
    codes "https://downloads.mongodb.com/compass/mongosh-"
    ++ (version ++ b'-' ∷ (target ++ b'-' ∷ (arch ++ suffix)))

-- What the calls of mongodl.py and of the host do.
pub record Host (W : Type 0) : Type 0 where
  pub linux : Bool
  pub openssl : Result Failure Text
  pub download_file : Text → Exec W Failure Text
  -- data["versions"][0]["version"] of the JSON
  pub first_version : Text → Result Failure Text
  pub expand_archive : Text → Exec W Failure ExpandResult

module _ {W : Type 0} (host : Host W) where
  lifted : {A : Type 0} → Result Failure A → Exec W Failure A
  lifted (ok a) = pure a
  lifted (raise e) = stop e

  -- The end of a loop of attempts; none is out of fuel.
  abbrev Ended : Type 0 → Type 0
  Ended A = Option (Result Failure A × W × List ℕ)

  version_attempt : Exec W Failure Text
  unfolding lifted
  version_attempt = do
    cached ← host.download_file (codes "https://downloads.mongodb.com/compass/mongosh.json")
    lifted (host.first_version cached)

  -- `_get_latest_version`
  unfoldable pub get_latest_version : ℕ → W → Ended Text
  unfolding version_attempt
  get_latest_version retries w = run version_attempt retries w

  named_version : Text → ℕ → W → Ended Text
  named_version version retries w =
      if text_eq version (codes "latest")
      then get_latest_version retries w
      else some (ok version, w, [])

  archive_attempt : Text → Exec W Failure ExpandResult
  archive_attempt url = host.download_file url >>= host.expand_archive

  behind : List ℕ → Ended ExpandResult → Ended ExpandResult
  behind before none = none
  behind before (some (r, w', after)) = some (r, w', before ++ after)

  with_url : Bool → ℕ → Result Failure Text → W → List ℕ → Ended ExpandResult
  unfolding archive_attempt behind
  with_url no_download retries (raise e) w slept = some (raise e, w, slept)
  with_url true retries (ok url) w slept = some (ok okay, w, slept)
  with_url false retries (ok url) w slept = behind slept (run (archive_attempt url) retries w)

  url_of : Text → Text → Text → Result Failure Text
  unfolding dl_url suffix_of mongosh_arch
  url_of version target arch = named (suffix_of host.linux host.openssl target (mongosh_arch arch))
    where
      named : Result Failure Text → Result Failure Text
      named (ok suffix) = ok (dl_url version target (mongosh_arch arch) suffix)
      named (raise e) = raise e

  with_version : Text → Text → Bool → ℕ → Ended Text → Ended ExpandResult
  unfolding with_url url_of
  with_version target arch no_download retries none = none
  with_version target arch no_download retries (some (raise e, w, slept)) = some (raise e, w, slept)
  with_version target arch no_download retries (some (ok version, w, slept)) =
      with_url no_download retries (url_of version target arch) w slept

  -- `_download`, with the seconds of all its sleeps.
  unfoldable pub download : Text → Text → Text → Bool → ℕ → W → Ended ExpandResult
  unfolding named_version with_version
  download version target arch no_download retries w =
      with_version target arch no_download retries (named_version version retries w)
