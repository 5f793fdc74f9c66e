-- ===== src/Mongodl/Builds/Arch.antt =====
-- Arch Linux hosts, whose inferred target is "rhel80".
use drivers_evergreen_tools.Common.{
  ◌≡◌, ◌≢◌, refl, ap, Bool, true, List, [], ◌∷◌, Option, some, All, arith, Result, ok, raise,
  >>=-eq-ok,
}
use drivers_evergreen_tools.Common.Text.{Text, codes}
use drivers_evergreen_tools.Mongodl.Url.{contains, is_prefix}
use drivers_evergreen_tools.Mongodl.Version as Version
use drivers_evergreen_tools.Mongodl.Database.{
  Db, Release, DownloadRow, Filters, DownloadableComponent, iter_available, import_json_data,
}
use drivers_evergreen_tools.Mongodl.Database.Import.{import_json_data-rhel80}
use drivers_evergreen_tools.Mongodl.Database.Order.{iter_available-NewestFirst}
use drivers_evergreen_tools.Mongodl.Database.Target.{iter_available-OfTarget, Matches-target}
use drivers_evergreen_tools.Mongodl.Builds.{
  Wanted, SignatureUrl, first_row, published_build_url, rhel_target, latest_build_url,
}

-- A query for the target returns no row.
no_rows :
    (filters : Filters) (db : Db) (rows : List DownloadableComponent)
    → filters.by_target ≡ some (codes "rhel80")
    → All (λ (d : DownloadRow). d.row_target ≢ codes "rhel80") db.mdl_downloads
    → iter_available filters db ≡ ok rows
    → rows ≡ []
no_rows filters db [] t p h = refl
no_rows filters db (row ∷ rows) t p h =
    let found = iter_available-OfTarget (λ t. t ≢ codes "rhel80") filters db (row ∷ rows) h p in
    let matches = (iter_available-NewestFirst filters db (row ∷ rows) h).1 in
    absurd (found.0 (Matches-target filters (codes "rhel80") row t matches.0))

module _ (loads : Text → Text → Option (Option Text))
    (presigned_urls : Text → Text → Option (Text × Text)) (validate : Bool)
    (versions : List Release) (db : Db)
    (imported : import_json_data validate versions ≡ some db) where
  first_row-none :
      (component value : Text) (o : Result Version.Error (List DownloadableComponent))
      → ((rows : List DownloadableComponent) → o ≡ ok rows → rows ≡ [])
      → (found : Text × Option Text)
      → first_row loads presigned_urls db component value o ≢ ok found
  unfolding first_row
  first_row-none component value (raise e) h found k = ground arith
  first_row-none component value (ok []) h found k = ground arith
  first_row-none component value (ok (row ∷ rows)) h found k =
      let e = h (row ∷ rows) refl in ground arith

  published-none :
      (version : Text) (w : Wanted) (found : Text × Option Text)
      → w.target ≡ codes "rhel80"
      → published_build_url loads presigned_urls db version w ≢ ok found
  unfolding published_build_url
  published-none version w found e k =
      first_row-none _ _ _
        (λ rows h.
          no_rows _ db rows (ap some e) (import_json_data-rhel80 validate versions db imported) h)
        found k

  -- From an imported list of downloads, no build is found for the target "rhel80", neither a
  -- published nor the latest one.
  pub latest_build_url-rhel80 :
      (version : Text) (w : Wanted) (branch : Option Text) (found : Text × Option Text)
      (latest : Text × SignatureUrl)
      → w.target ≡ codes "rhel80"
      → (published_build_url loads presigned_urls db version w ≢ ok found)
        × (latest_build_url loads presigned_urls db w branch ≢ ok latest)
  unfolding latest_build_url rhel_target contains is_prefix
  latest_build_url-rhel80 version w branch found latest e = (
    published-none version w found e,
    λ k.
        let has : contains (codes "rhel") w.target ≡ true = rw e refl in
        let (target, f, g) = >>=-eq-ok (rhel_target loads presigned_urls db w) _ k in
        let (p, h, l) =
          >>=-eq-ok (published_build_url loads presigned_urls db (codes "latest-release") w) _
            (rw has at f) in
        published-none (codes "latest-release") w p e h,
  )
