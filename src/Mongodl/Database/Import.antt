-- ===== src/Mongodl/Database/Import.antt =====
-- The targets that an import checks against the tables.
use drivers_evergreen_tools.Common.{
  ℕ, suc, subst, some-injective, ◌≡◌, ◌≢◌, refl, ap, Bool, true, false, Bool-cases, inl, inr, ◌&&◌,
  List, [], ◌∷◌, some, arith, length, take, length-take_le, ◌==◌, any, All, All-append,
}
use drivers_evergreen_tools.Common.Text.{Text, codes}
use drivers_evergreen_tools.Mongodl.Url.{is_prefix}
use drivers_evergreen_tools.Mongodl.Database.{
  Download, Release, Db, normalize_target, is_missing, insert_downloads, insert_version,
  insert_versions, empty_db, DownloadRow, download_row, validated, import_json_data, or_null,
}

-- The last of a non-empty list of versions.
abbrev pub last_of : Release → List Release → Release
last_of ver [] = ver
last_of ver (next ∷ versions) = last_of next versions

-- Every target of the version is known to the tables.
unfoldable pub IsKnown : Release → Type 0
unfolding or_null
IsKnown ver = any (λ dl. is_missing (normalize_target (or_null dl.target))) ver.downloads ≡ false

downloads_missing :
    (version_id : ℕ) (downloads : List Download) (missing : List Text) (db : Db)
    → missing ≡ []
    → any (λ (dl : Download). is_missing (normalize_target (or_null dl.target))) downloads ≡ false
    → (insert_downloads version_id downloads (missing, db)).0 ≡ []
unfolding insert_downloads
downloads_missing version_id [] missing db m h = m
downloads_missing version_id (dl ∷ downloads) missing db m h =
    elim (Bool-cases (is_missing (normalize_target (or_null dl.target)))) [
      | inl e ↦ ground arith
      | inr e ↦ downloads_missing version_id downloads _ _ (rw e m) (rw e at h)
    ]

versions_missing :
    (ver : Release) (versions : List Release) (missing : List Text) (db : Db)
    → IsKnown (last_of ver versions)
    → (insert_versions (ver ∷ versions) (missing, db)).0 ≡ []
unfolding insert_versions IsKnown
versions_missing ver [] missing db h =
    downloads_missing (suc (length db.mdl_versions)) ver.downloads [] (insert_version ver db) refl h
versions_missing ver (next ∷ versions) missing db h =
    let mid =
      insert_downloads (suc (length db.mdl_versions)) ver.downloads ([], insert_version ver db) in
    versions_missing next versions mid.0 mid.1 h

validated-empty : (o : List Text × Db) → o.0 ≡ [] → validated true o ≡ some o.1
validated-empty ([], db) h = refl
validated-empty ((t ∷ missing), db) h = ground arith

-- With VALIDATE_DISTROS, an import in which the targets of the last version are known succeeds,
-- whatever targets the tables lack for the versions before it.
pub import_json_data-last :
    (ver : Release) (versions : List Release)
    → IsKnown (last_of ver versions)
    → (db : Db) × (import_json_data true (ver ∷ versions) ≡ some db)
unfolding import_json_data
import_json_data-last ver versions h = (
  (insert_versions (ver ∷ versions) ([], empty_db)).1,
  validated-empty (insert_versions (ver ∷ versions) ([], empty_db))
      (versions_missing ver versions [] empty_db h),
)

shortened : (target : Text) → take 5 target ≡ codes "rhel80" → ⊥
shortened target h =
    let six : length (take 5 target) ≡ 6 = ap length h in omega (arith, length-take_le 5 target)

kept :
    (target : Text)
    → target ≡ codes "rhel80"
    → (is_prefix (codes "rhel") target && length target == 6) ≡ false
    → ⊥
unfolding is_prefix
kept target h e = let f = rw h at e in ground arith

-- A target that keeps its minor version has not six characters.
normalize_target_lem : (target : Text) → normalize_target target ≢ codes "rhel80"
unfolding normalize_target
normalize_target_lem target h =
    elim (Bool-cases (is_prefix (codes "rhel") target && length target == 6)) [
      | inl e ↦ shortened target (rw e at h)
      | inr e ↦ kept target (rw e at h) e
    ]

IsNotRhel80 : DownloadRow → Type 0
IsNotRhel80 row = row.row_target ≢ codes "rhel80"

downloads_IsNotRhel80 :
    (version_id : ℕ) (downloads : List Download) (missing : List Text) (db : Db)
    → All IsNotRhel80 db.mdl_downloads
    → All IsNotRhel80 (insert_downloads version_id downloads (missing, db)).1.mdl_downloads
unfolding insert_downloads download_row IsNotRhel80
downloads_IsNotRhel80 version_id [] missing db h = h
downloads_IsNotRhel80 version_id (dl ∷ downloads) missing db h =
    downloads_IsNotRhel80 version_id downloads _ _
      (All-append IsNotRhel80 db.mdl_downloads _ h (normalize_target_lem (or_null dl.target), tt))

versions_IsNotRhel80 :
    (versions : List Release) (missing : List Text) (db : Db)
    → All IsNotRhel80 db.mdl_downloads
    → All IsNotRhel80 (insert_versions versions (missing, db)).1.mdl_downloads
unfolding insert_versions insert_version
versions_IsNotRhel80 [] missing db h = h
versions_IsNotRhel80 (ver ∷ versions) missing db h = versions_IsNotRhel80 versions _ _ (
    downloads_IsNotRhel80 (suc (length db.mdl_versions)) ver.downloads [] (insert_version ver db) h)

validated-some :
    (validate : Bool) (o : List Text × Db) (db : Db) → validated validate o ≡ some db → o.1 ≡ db
validated-some validate ([], db') db h = some-injective _ _ h
validated-some true ((t ∷ missing), db') db h = ground arith
validated-some false ((t ∷ missing), db') db h = some-injective _ _ h

-- No imported download has the target "rhel80", which is the one that is inferred on Arch Linux.
pub import_json_data-rhel80 :
    (validate : Bool) (versions : List Release) (db : Db)
    → import_json_data validate versions ≡ some db
    → All (λ (row : DownloadRow). row.row_target ≢ codes "rhel80") db.mdl_downloads
unfolding import_json_data IsNotRhel80
import_json_data-rhel80 validate [] db h = ground arith
import_json_data-rhel80 validate (ver ∷ versions) db h =
    subst (λ d. All (λ (row : DownloadRow). row.row_target ≢ codes "rhel80") d.mdl_downloads)
      (validated-some validate (insert_versions (ver ∷ versions) ([], empty_db)) db h)
      (versions_IsNotRhel80 (ver ∷ versions) [] empty_db tt)
