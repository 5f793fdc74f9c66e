-- ===== src/Mongodl/Builds/Row.antt =====
-- The URL and the checksum of a published build, and the row that they are from.
use drivers_evergreen_tools.Common.{
  ◌≡◌, Bool-cases, inl, inr, ◌⊎◌, ◌&&◌, List, [], ◌∷◌, Option, none, some, arith, Result, ok, raise,
  sym, ◌>>=◌, ap, refl, >>=-eq-ok, ok-injective, if◌then◌else◌,
}
use drivers_evergreen_tools.Common.Text.{Text, codes, text_eq, text_eq_iff}
use drivers_evergreen_tools.Mongodl.Builds.{
  Wanted, found_key, used_url, overridden, url_and_sha256, first_row, published_build_url,
}
use drivers_evergreen_tools.Mongodl.Version as Version
use drivers_evergreen_tools.Mongodl.Database.{Db, Filters, DownloadableComponent, iter_available}

abbrev IsQuery : Text → Wanted → Filters → Type 0
IsQuery version w filters =
    (filters.by_version ≡ some version)
    × (filters.by_target ≡ some w.target)
    × (filters.by_arch ≡ some w.arch)
    × (filters.by_edition ≡ some w.edition)

-- The one row of the list whose checksum is replaced.
abbrev IsReplaced : DownloadableComponent → Option Text → Type 0
IsReplaced tup sum =
    (tup.target ≡ codes "windows")
    × (tup.version ≡ codes "7.0.32-rc2")
    × ((value : Text) × (sum ≡ some value))

module _ (loads : Text → Text → Option (Option Text)) where
  -- The URL and the checksum are members of the row's JSON, the checksum null where that is null.
  abbrev IsOfRow : DownloadableComponent → Text → Option Text → Type 0
  IsOfRow tup url sum =
      ((key : Text) × (loads tup.data_json key ≡ some (some url)))
      × ((loads tup.data_json (codes "sha256") ≡ some sum) ⊎ IsReplaced tup sum)

  -- The row is the first one of a query for the version and the build that are wanted.
  abbrev pub IsOfList : Db → Text → Wanted → Text → Option Text → Type 0
  IsOfList db version w url sum =
      (filters : Filters) × (tup : DownloadableComponent) × (rows : List DownloadableComponent)
      × IsQuery version w filters
      × (iter_available filters db ≡ ok (tup ∷ rows))
      × IsOfRow tup url sum

found_key-ok :
    (key : Text) (member : Option (Option Text)) (value : Option Text)
    → found_key key member ≡ ok value
    → member ≡ some value
unfolding found_key
found_key-ok key none value h = ground arith
found_key-ok key (some v) value h = ap some (ok-injective h)

used_url-ok : (member : Option Text) (url : Text) → used_url member ≡ ok url → member ≡ some url
unfolding used_url
used_url-ok none url h = ground arith
used_url-ok (some v) url h = ap some (ok-injective h)

module _ (loads : Text → Text → Option (Option Text))
    (presigned_urls : Text → Text → Option (Text × Text)) (db : Db) where
  used_checksum :
      (tup : DownloadableComponent) (component : Text) (checksum used : Option Text)
      → (if text_eq tup.target (codes "windows") && text_eq tup.version (codes "7.0.32-rc2")
          then (overridden component >>= λ sum. ok (some sum))
          else ok checksum)
        ≡ ok used
      → (checksum ≡ used) ⊎ IsReplaced tup used
  used_checksum tup component checksum used h =
      elim (Bool-cases
        (text_eq tup.target (codes "windows") && text_eq tup.version (codes "7.0.32-rc2"))) [
          | inl e ↦
              let (sum, f, g) =
                >>=-eq-ok (overridden component) (λ sum. ok (some sum)) (rw e at h) in
              inr (
                ground (arith, text_eq_iff tup.target (codes "windows")),
                ground (arith, text_eq_iff tup.version (codes "7.0.32-rc2")),
                (sum, sym (ok-injective g)),
              )
          | inr e ↦ inl (ok-injective (rw e at h))
        ]

  url_and_sha256-IsOfRow :
      (component value : Text) (tup : DownloadableComponent) (url : Text) (sum : Option Text)
      → url_and_sha256 loads presigned_urls db component value tup ≡ ok (url, sum)
      → IsOfRow loads tup url sum
  unfolding url_and_sha256
  url_and_sha256-IsOfRow component value tup url sum h =
      let (checksum, e1, h1) =
        >>=-eq-ok (found_key (codes "sha256") (loads tup.data_json (codes "sha256"))) _ h in
      let (used, e2, h2) = >>=-eq-ok _ _ h1 in
      let (member, e3, h3) = >>=-eq-ok (found_key value (loads tup.data_json value)) _ h2 in
      let (u, e4, h4) = >>=-eq-ok (used_url member) _ h3 in
      let found = found_key-ok value (loads tup.data_json value) member e3 in
      let checked = found_key-ok (codes "sha256") _ checksum e1 in
      let is_url = used_url-ok member u e4 in
      let is_used : used ≡ sum = ground arith in
      (
        (value, ground arith),
        elim (used_checksum tup component checksum used e2) [
          | inl e ↦ inl (ground arith)
          | inr r ↦ inr (r.0, r.1, (r.2.0, ground arith))
        ],
      )

  first_row-IsOfRow :
      (component value : Text) (o : Result Version.Error (List DownloadableComponent)) (url : Text)
      (sum : Option Text)
      → first_row loads presigned_urls db component value o ≡ ok (url, sum)
      → (tup : DownloadableComponent) × (rows : List DownloadableComponent) × (o ≡ ok (tup ∷ rows))
        × IsOfRow loads tup url sum
  unfolding first_row
  first_row-IsOfRow component value (raise e) url sum h = ground arith
  first_row-IsOfRow component value (ok []) url sum h = ground arith
  first_row-IsOfRow component value (ok (tup ∷ rows)) url sum h =
      (tup, rows, refl, url_and_sha256-IsOfRow component value tup url sum h)

  pub published_build_url-IsOfList :
      (version : Text) (w : Wanted) (url : Text) (sum : Option Text)
      → published_build_url loads presigned_urls db version w ≡ ok (url, sum)
      → IsOfList loads db version w url sum
  unfolding published_build_url
  published_build_url-IsOfList version w url sum h =
      let (tup, rows, e, of_row) = first_row-IsOfRow _ _ _ url sum h in
      (_, tup, rows, (refl, refl, refl, refl), e, of_row)
