-- ===== src/Mongodl/Builds.antt =====
-- Which build is downloaded: `_published_build_url`, `_legacy_latest_build_url`, `_latest_build_url`
-- and the first half of `_dl_component` of mongodl.py. `json.loads` of a component, and the
-- presigning of an S3 key, are parameters.
pub mod Arch
pub mod Row
use drivers_evergreen_tools.Common.{
  ℕ, Bool, true, false, ◌&&◌, ◌||◌, not, List, [], ◌∷◌, ◌++◌, Option, none, some, any, leb,
  if◌then◌else◌, Result, ok, raise, ◌>>=◌,
}
use drivers_evergreen_tools.Common.Text.{Text, codes, text_eq}
use drivers_evergreen_tools.Mongodl.Pattern.{suffixes}
use drivers_evergreen_tools.Mongodl.Url.{is_prefix, contains}
use drivers_evergreen_tools.Mongodl.Version as Version
use drivers_evergreen_tools.Mongodl.Database.{Db, DownloadableComponent, iter_available}

pub data Error : Type 0 where
  -- ValueError
  no_download : Error
  -- KeyError
  no_key : Text → Error
  -- TypeError
  null_url : Error
  query : Version.Error → Error

-- The arguments that name a build.
pub record Wanted : Type 0 where
  pub target : Text
  pub arch : Text
  pub edition : Text
  pub component : Text

-- The member of a JSON object: none where it is missing, some none where it is null.
found_key : Text → Option (Option Text) → Result Error (Option Text)
found_key key none = raise (no_key key)
found_key key (some value) = ok value

-- A URL that is null fails a little later, with a TypeError, where it is first used.
used_url : Option Text → Result Error Text
used_url none = raise null_url
used_url (some url) = ok url

-- The checksums of SERVER-124033.
overridden : Text → Result Error Text
overridden component =
    if text_eq component (codes "archive")
    then ok (codes "1d585203c5fd36b09267a58fd7d6cb367c304dba45c1517fb6ba42a44635554d")
    else if text_eq component (codes "crypt_shared")
    then ok (codes "07712345a2d374db84212a35ff62892c8c93ed85cabbc3692a1e91a9b05c907c")
    else if text_eq component (codes "cryptd")
    then ok (codes "3a3e93c7956fbc13cb4b514e69e57d56e8f07fab951c2dee55eb40ae78d54909")
    else raise (no_key component)

abbrev is_debug : Text → Bool
is_debug component = text_eq component (codes "archive-debug")

-- `{"windows": "windows", "win32": "win32", "macos": mac}.get(target, "linux")`
abbrev platform_of : Text → Text → Text
platform_of mac target =
    if text_eq target (codes "windows") || text_eq target (codes "win32")
    then target
    else if text_eq target (codes "macos")
    then mac
    else codes "linux"

abbrev component_name : Text → Text
component_name component =
    if text_eq component (codes "archive")
    then codes "mongodb"
    else if text_eq component (codes "crypt_shared")
    then codes "mongo_crypt_shared_v1"
    else component

abbrev extension : Text → Text
extension target = if text_eq target (codes "windows") then codes "zip" else codes "tgz"

abbrev enterprise_infix : Text → Text
enterprise_infix edition = if text_eq edition (codes "enterprise") then codes "enterprise-" else []

abbrev target_infix : Text → Text
target_infix target =
    if text_eq target (codes "windows")
      || (text_eq target (codes "win32") || text_eq target (codes "macos"))
    then []
    else target ++ codes "-"

abbrev branch_infix : Option Text → Text
branch_infix none = []
branch_infix (some branch) = if text_eq branch (codes "master") then [] else branch ++ codes "-"

-- Texts one behind the other.
abbrev joined : List Text → Text
joined [] = []
joined (part ∷ parts) = part ++ joined parts

unfoldable pub legacy_latest_build_url : Wanted → Option Text → Text
legacy_latest_build_url w branch = joined (
    codes "https://downloads.10gen.com/"
    ∷ platform_of (codes "osx") w.target
    ∷ codes "/"
    ∷ component_name w.component
    ∷ codes "-"
    ∷ platform_of (codes "macos") w.target
    ∷ codes "-"
    ∷ w.arch
    ∷ codes "-"
    ∷ enterprise_infix w.edition
    ∷ target_infix w.target
    ∷ branch_infix branch
    ∷ codes "latest."
    ∷ extension w.target
    ∷ [])

is_digit : ℕ → Bool
is_digit c = leb b'0' c && leb c b'9'

-- `re.search(r"rhel[0-9][0-9]", url)`
rhel_here : Text → Option Text
unfolding is_digit
rhel_here (r ∷ h ∷ e ∷ l ∷ a ∷ b ∷ s) =
    if text_eq (r ∷ h ∷ e ∷ l ∷ []) (codes "rhel") && (is_digit a && is_digit b)
    then some (r ∷ h ∷ e ∷ l ∷ a ∷ b ∷ [])
    else none
rhel_here _ = none

search_rhel : Text → Option Text
unfolding rhel_here
search_rhel [] = none
search_rhel (c ∷ s) =
    let later = search_rhel s in elim (rhel_here (c ∷ s)) [ some t ↦ some t | none ↦ later ]

-- `rstrip("-")`
rstrip_dash : Text → Text
rstrip_dash [] = []
rstrip_dash (c ∷ s) =
    let rest = rstrip_dash s in
    elim rest [ [] ↦ if text_eq (c ∷ []) (codes "-") then [] else c ∷ [] | d ∷ t ↦ c ∷ d ∷ t ]

or_target : Text → Option Text → Text
or_target target none = target
or_target target (some found) = found

abbrev branch_folder : Option Text → Text
branch_folder none = codes "mongodb-mongo-master-nightly"
branch_folder (some branch) =
    if text_eq branch (codes "master")
    then codes "mongodb-mongo-master-nightly"
    else codes "mongodb-mongo-" ++ (branch ++ codes "-staging")

-- Where the signature comes from: presigned again when it is fetched, or beside the archive.
pub data SignatureUrl : Type 0 where
  presigned_again : Text → Text → SignatureUrl
  beside : Text → SignatureUrl

unfoldable pub archive_key : Wanted → Text → Option Text → Text
unfolding rstrip_dash
archive_key w target branch = joined (
    branch_folder branch
    ∷ codes "/"
    ∷ rstrip_dash (
        joined (
          component_name w.component
          ∷ codes "-"
          ∷ platform_of (codes "macos") w.target
          ∷ codes "-"
          ∷ w.arch
          ∷ codes "-"
          ∷ enterprise_infix w.edition
          ∷ target_infix target
          ∷ []))
    ∷ codes "."
    ∷ extension w.target
    ∷ [])

module _ (loads : Text → Text → Option (Option Text))
    (presigned_urls : Text → Text → Option (Text × Text)) (db : Db) where
  url_and_sha256 : Text → Text → DownloadableComponent → Result Error (Text × Option Text)
  unfolding overridden found_key used_url
  url_and_sha256 component value tup = do
    checksum ← found_key (codes "sha256") (loads tup.data_json (codes "sha256"))
    used ←
        if text_eq tup.target (codes "windows") && text_eq tup.version (codes "7.0.32-rc2")
        then (overridden component >>= λ sum. ok (some sum))
        else ok checksum
    member ← found_key value (loads tup.data_json value)
    url ← used_url member
    ok (url, used)

  first_row :
      Text
      → Text
      → Result Version.Error (List DownloadableComponent)
      → Result Error (Text × Option Text)
  unfolding url_and_sha256
  first_row component value (raise e) = raise (query e)
  first_row component value (ok []) = raise no_download
  first_row component value (ok (tup ∷ rows)) = url_and_sha256 component value tup

  unfoldable pub published_build_url : Text → Wanted → Result Error (Text × Option Text)
  unfolding first_row
  published_build_url version w =
      let component = if is_debug w.component then codes "archive" else w.component in
      first_row component (if is_debug w.component then codes "debug_symbols" else codes "url") (
        iter_available
          (record {
            by_version = some version;
            by_target = some w.target;
            by_arch = some w.arch;
            by_edition = some w.edition;
            by_component = some component;
          })
          db)

  -- A RHEL target with its minor version, from the URL of the latest release.
  rhel_target : Wanted → Result Error Text
  unfolding search_rhel or_target
  rhel_target w =
      if contains (codes "rhel") w.target
      then (published_build_url (codes "latest-release") w >>= λ (url, checksum).
          ok (or_target w.target (search_rhel url)))
      else ok w.target

  presigned_or_legacy : Wanted → Option Text → Text → Option (Text × Text) → Text × SignatureUrl
  presigned_or_legacy w branch key (some (url, sig_url)) =
      (url, presigned_again key (key ++ codes ".sig"))
  presigned_or_legacy w branch key none =
      let url = legacy_latest_build_url w branch in (url, beside (url ++ codes ".sig"))

  unfoldable pub latest_build_url : Wanted → Option Text → Result Error (Text × SignatureUrl)
  unfolding rhel_target presigned_or_legacy
  latest_build_url w branch = rhel_target w >>= λ target.
      let key = archive_key w target branch in
      ok (
        presigned_or_legacy (record w { target = target }) branch key
          (presigned_urls key (key ++ codes ".sig")))
