-- ===== src/Mongodl/Database.antt =====
-- The table of downloads: `import_json_data` and `iter_available` of mongodl.py. A column of JSON
-- text is the text; a query is a function over the rows.
pub mod Import
pub mod Order
pub mod Target
use drivers_evergreen_tools.Common.{
  ℕ, suc, zero, ◌+◌, ◌≡◌, Bool, true, false, ◌&&◌, ◌||◌, not, List, [], ◌∷◌, ◌++◌, Option, none,
  some, any, leb, length, take, ◌==◌, if◌then◌else◌, Result, ok, raise, ◌>>=◌,
}
use drivers_evergreen_tools.Common.Int.{ℤ, pos, negsuc}
use drivers_evergreen_tools.Common.Text.{Text, codes, text_eq}
use drivers_evergreen_tools.Mongodl.Url.{is_prefix}
use drivers_evergreen_tools.Mongodl.Version.{
  Error, collate_mdb_version, mdb_version_not_rc, mdb_version_rapid,
}
use drivers_evergreen_tools.Mongodl.Target.{is_distro_target, lower}
use drivers_evergreen_tools.Mongodl.Target.Tables.{targets_that_are_not_distros}

-- A field of a download: its key, whether "url" is in its value, and the value as JSON.
pub record Field : Type 0 where
  pub key : Text
  pub has_url : Bool
  pub value : Text

-- An entry of "downloads".
pub record Download : Type 0 where
  pub target : Option Text
  pub arch : Option Text
  pub edition : Text
  pub archive_url : Text
  pub debug_symbols : Option Text
  pub fields : List Field
  pub json : Text

-- An entry of "versions".
pub record Release : Type 0 where
  pub version : Text
  pub githash : Text
  pub date : Text
  pub downloads : List Download

pub record VersionRow : Type 0 where
  pub row_version_id : ℕ
  pub row_date : Text
  pub row_version : Text
  pub row_githash : Text

pub record DownloadRow : Type 0 where
  pub download_id : ℕ
  pub of_version : ℕ
  pub row_target : Text
  pub row_arch : Text
  pub row_edition : Text
  pub ar_url : Text
  pub ar_debug_url : Option Text
  pub row_data : Text

pub record ComponentRow : Type 0 where
  pub component_id : ℕ
  pub row_key : Text
  pub of_download : ℕ
  pub component_data : Text

pub record Db : Type 0 where
  pub mdl_versions : List VersionRow
  pub mdl_downloads : List DownloadRow
  pub mdl_components : List ComponentRow

or_null : Option Text → Text
or_null none = codes "null"
or_null (some t) = t

-- RHEL targets include just the major version.
unfoldable pub normalize_target : Text → Text
normalize_target target =
    if is_prefix (codes "rhel") target && length target == 6 then take 5 target else target

unfoldable pub is_missing : Text → Bool
is_missing target =
    not (is_distro_target target) && not (any (text_eq target) targets_that_are_not_distros)

insert_fields : ℕ → List Field → List ComponentRow → List ComponentRow
insert_fields dl_id [] rows = rows
insert_fields dl_id (f ∷ fields) rows =
    if not f.has_url
    then insert_fields dl_id fields rows
    else insert_fields dl_id fields (
        rows
        ++ record {
          component_id = suc (length rows);
          row_key = f.key;
          of_download = dl_id;
          component_data = f.value;
        }
          ∷ [])

download_row : ℕ → ℕ → Download → DownloadRow
unfolding or_null
download_row version_id dl_id dl = record {
  download_id = dl_id;
  of_version = version_id;
  row_target = normalize_target (or_null dl.target);
  row_arch = or_null dl.arch;
  row_edition = dl.edition;
  ar_url = dl.archive_url;
  ar_debug_url = dl.debug_symbols;
  row_data = dl.json;
}

-- The loop over the downloads of a version, with the missing targets found so far.
insert_downloads : ℕ → List Download → List Text × Db → List Text × Db
unfolding download_row insert_fields or_null
insert_downloads version_id [] (missing, db) = (missing, db)
insert_downloads version_id (dl ∷ downloads) (missing, db) =
    let target = normalize_target (or_null dl.target) in
    let dl_id = suc (length db.mdl_downloads) in
    insert_downloads version_id downloads (
      if is_missing target then target ∷ missing else missing,
      record db {
        mdl_downloads = db.mdl_downloads ++ download_row version_id dl_id dl ∷ [];
        mdl_components = insert_fields dl_id dl.fields db.mdl_components;
      },
    )

insert_version : Release → Db → Db
insert_version ver db = record db {
  mdl_versions =
      db.mdl_versions
      ++ record {
        row_version_id = suc (length db.mdl_versions);
        row_date = ver.date;
        row_version = ver.version;
        row_githash = ver.githash;
      }
        ∷ [];
}

-- The loop over the versions. `missing` is a new set for each of them.
unfoldable pub insert_versions : List Release → List Text × Db → List Text × Db
unfolding insert_downloads insert_version
insert_versions [] (missing, db) = (missing, db)
insert_versions (ver ∷ versions) (missing, db) =
    insert_versions versions
      (insert_downloads (suc (length db.mdl_versions)) ver.downloads ([], insert_version ver db))

abbrev pub empty_db : Db
empty_db = record { mdl_versions = []; mdl_downloads = []; mdl_components = [] }

-- `sys.exit(1)`, which rolls the transaction back.
abbrev validated : Bool → List Text × Db → Option Db
validated validate ([], db) = some db
validated validate ((target ∷ missing), db) = if validate then none else some db

-- `import_json_data`, which drops the old tables. `validate` says whether VALIDATE_DISTROS is "1".
-- Without any version, `missing` is unbound at the end.
unfoldable pub import_json_data : Bool → List Release → Option Db
import_json_data validate [] = none
import_json_data validate (ver ∷ versions) =
    validated validate (insert_versions (ver ∷ versions) ([], empty_db))

-- The filters of `iter_available`.
pub record Filters : Type 0 where
  pub by_version : Option Text
  pub by_target : Option Text
  pub by_arch : Option Text
  pub by_edition : Option Text
  pub by_component : Option Text

pub record DownloadableComponent : Type 0 where
  pub version : Text
  pub target : Text
  pub arch : Text
  pub edition : Text
  pub key : Text
  pub data_json : Text

unfoldable pub null_or : Option Text → Text → Bool
null_or none value = true
null_or (some wanted) value = text_eq value wanted

-- `LIKE`: `%` is any text, `_` any character, and case does not matter.
like : Text → Text → Bool
like [] [] = true
like [] (c ∷ s) = false
like (p ∷ ps) [] = p == b'%' && like ps []
like (p ∷ ps) (c ∷ s) =
    let here = like ps s in
    let skip = like (p ∷ ps) s in
    let stop = like ps (c ∷ s) in
    if p == b'%'
    then stop || skip
    else (p == b'_' || text_eq (lower (p ∷ [])) (lower (c ∷ []))) && here

-- The CASE of the query.
unfoldable pub version_matches : Option Text → Text → Result Error Bool
unfolding like
version_matches none version = ok true
version_matches (some wanted) version =
    if text_eq wanted (codes "latest-release")
    then ok true
    else if text_eq wanted (codes "latest-stable")
    then mdb_version_not_rc version
    else if text_eq wanted (codes "rapid")
    then mdb_version_rapid version
    else ok (text_eq version wanted || like (wanted ++ codes ".%") version)

row_of : ComponentRow → DownloadRow → VersionRow → DownloadableComponent
row_of c d v = record {
  version = v.row_version;
  target = d.row_target;
  arch = d.row_arch;
  edition = d.row_edition;
  key = c.row_key;
  data_json = c.component_data;
}

join_versions : ComponentRow → DownloadRow → List VersionRow → List DownloadableComponent
unfolding row_of
join_versions c d [] = []
join_versions c d (v ∷ versions) =
    let rest = join_versions c d versions in
    if v.row_version_id == d.of_version then row_of c d v ∷ rest else rest

join_downloads : ComponentRow → List DownloadRow → List VersionRow → List DownloadableComponent
unfolding join_versions
join_downloads c [] versions = []
join_downloads c (d ∷ downloads) versions =
    let rest = join_downloads c downloads versions in
    if d.download_id == c.of_download then join_versions c d versions ++ rest else rest

-- `FROM mdl_components, mdl_downloads USING(download_id), mdl_versions USING(version_id)`
joined : List ComponentRow → Db → List DownloadableComponent
unfolding join_downloads
joined [] db = []
joined (c ∷ components) db =
    join_downloads c db.mdl_downloads db.mdl_versions ++ joined components db

-- The WHERE of the query.
unfoldable pub row_matches : Filters → DownloadableComponent → Result Error Bool
unfolding null_or version_matches
row_matches filters row =
    if null_or filters.by_component row.key
      && (null_or filters.by_target row.target
          && (null_or filters.by_arch row.arch && null_or filters.by_edition row.edition))
    then version_matches filters.by_version row.version
    else ok false

unfoldable pub filtered :
    Filters → List DownloadableComponent → Result Error (List DownloadableComponent)
filtered filters [] = ok []
filtered filters (row ∷ rows) = do
  matches ← row_matches filters row
  rest ← filtered filters rows
  ok (if matches then row ∷ rest else rest)

abbrev pub is_negative : ℤ → Bool
is_negative (pos n) = false
is_negative (negsuc n) = true

abbrev place_by :
    Bool
    → DownloadableComponent
    → DownloadableComponent
    → List DownloadableComponent
    → Result Error (List DownloadableComponent)
    → Result Error (List DownloadableComponent)
place_by true row other rows later = later >>= λ rest. ok (other ∷ rest)
place_by false row other rows later = ok (row ∷ other ∷ rows)

unfoldable pub insert_sorted :
    DownloadableComponent → List DownloadableComponent → Result Error (List DownloadableComponent)
insert_sorted row [] = ok (row ∷ [])
insert_sorted row (other ∷ rows) =
    let later = insert_sorted row rows in
    collate_mdb_version row.version other.version >>= λ c.
    place_by (is_negative c) row other rows later

-- `ORDER BY version COLLATE mdb_version DESC`
unfoldable pub ordered : List DownloadableComponent → Result Error (List DownloadableComponent)
ordered [] = ok []
ordered (row ∷ rows) = ordered rows >>= insert_sorted row

unfoldable pub iter_available : Filters → Db → Result Error (List DownloadableComponent)
unfolding joined
iter_available filters db = filtered filters (joined db.mdl_components db) >>= ordered
