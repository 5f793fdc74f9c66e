-- ===== src/Mongodl/Database/Target.antt =====
-- The rows of a query have targets of the imported downloads.
use drivers_evergreen_tools.Common.{
  ◌≡◌, subst, Bool-cases, inl, inr, List, [], ◌∷◌, some, All, All-append, arith, ◌==◌, ok,
  >>=-eq-ok, ok-injective,
}
use drivers_evergreen_tools.Common.Text.{Text, text_eq_iff}
use drivers_evergreen_tools.Mongodl.Database.{
  Db, VersionRow, DownloadRow, ComponentRow, Filters, DownloadableComponent, row_of, join_versions,
  join_downloads, joined, null_or, row_matches, filtered, iter_available,
}
use drivers_evergreen_tools.Mongodl.Database.Order.{Matches, ordered_lem}

module _ (P : Text → Type 0) where
  abbrev OfTarget : DownloadableComponent → Type 0
  OfTarget row = P row.target

  join_versions-OfTarget :
      (c : ComponentRow) (d : DownloadRow) (versions : List VersionRow)
      → P d.row_target
      → All OfTarget (join_versions c d versions)
  unfolding join_versions row_of
  join_versions-OfTarget c d [] h = tt
  join_versions-OfTarget c d (v ∷ versions) h =
      elim (Bool-cases (v.row_version_id == d.of_version)) [
        | inl e ↦ rw e (h, join_versions-OfTarget c d versions h)
        | inr e ↦ rw e (join_versions-OfTarget c d versions h)
      ]

  join_downloads-OfTarget :
      (c : ComponentRow) (downloads : List DownloadRow) (versions : List VersionRow)
      → All (λ (d : DownloadRow). P d.row_target) downloads
      → All OfTarget (join_downloads c downloads versions)
  unfolding join_downloads
  join_downloads-OfTarget c [] versions h = tt
  join_downloads-OfTarget c (d ∷ downloads) versions h =
      elim (Bool-cases (d.download_id == c.of_download)) [
        | inl e ↦ rw e (
            All-append OfTarget (join_versions c d versions) _
              (join_versions-OfTarget c d versions h.0)
              (join_downloads-OfTarget c downloads versions h.1))
        | inr e ↦ rw e (join_downloads-OfTarget c downloads versions h.1)
      ]

  joined-OfTarget :
      (components : List ComponentRow) (db : Db)
      → All (λ (d : DownloadRow). P d.row_target) db.mdl_downloads
      → All OfTarget (joined components db)
  unfolding joined
  joined-OfTarget [] db h = tt
  joined-OfTarget (c ∷ components) db h =
      All-append OfTarget (join_downloads c db.mdl_downloads db.mdl_versions) _
        (join_downloads-OfTarget c db.mdl_downloads db.mdl_versions h)
        (joined-OfTarget components db h)

  filtered-OfTarget :
      (filters : Filters) (rows out : List DownloadableComponent)
      → filtered filters rows ≡ ok out
      → All OfTarget rows
      → All OfTarget out
  unfolding filtered
  filtered-OfTarget filters [] out h p = subst (All OfTarget) (ok-injective h) tt
  filtered-OfTarget filters (row ∷ rows) out h p =
      let (matches, e, k) = >>=-eq-ok (row_matches filters row) _ h in
      let (rest, f, g) = >>=-eq-ok (filtered filters rows) _ k in
      let all_rest = filtered-OfTarget filters rows rest f p.1 in
      elim (Bool-cases matches) [
        | inl t ↦ subst (All OfTarget) (ok-injective (rw t at g)) (p.0, all_rest)
        | inr n ↦ subst (All OfTarget) (ok-injective (rw n at g)) all_rest
      ]

  -- What holds of every imported target holds of the targets that a query returns.
  pub iter_available-OfTarget :
      (filters : Filters) (db : Db) (rows : List DownloadableComponent)
      → iter_available filters db ≡ ok rows
      → All (λ (d : DownloadRow). P d.row_target) db.mdl_downloads
      → All (λ (row : DownloadableComponent). P row.target) rows
  unfolding iter_available
  iter_available-OfTarget filters db rows h p =
      let (found, e, k) = >>=-eq-ok (filtered filters (joined db.mdl_components db)) _ h in
      (ordered_lem OfTarget found rows k (
        filtered-OfTarget filters (joined db.mdl_components db) found e
          (joined-OfTarget db.mdl_components db p))).1

pub Matches-target :
    (filters : Filters) (wanted : Text) (row : DownloadableComponent)
    → filters.by_target ≡ some wanted
    → Matches filters row
    → row.target ≡ wanted
unfolding row_matches null_or
Matches-target filters wanted row e h = ground (arith, text_eq_iff row.target wanted)
