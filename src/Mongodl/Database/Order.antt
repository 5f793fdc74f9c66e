-- ===== src/Mongodl/Database/Order.antt =====
-- The rows of a query match its filters, and the newest comes first.
use drivers_evergreen_tools.Common.{
  zero, suc, ◌≡◌, refl, Bool, ◌&&◌, Option, none, some, true, false, Bool-cases, inl, inr, List, [],
  ◌∷◌, All, All-map, arith, ok, >>=-eq-ok, ok-injective, subst,
}
use drivers_evergreen_tools.Common.Text.{Text, text_eq_iff}
use drivers_evergreen_tools.Common.Int.{ℤ, pos, negsuc, negate}
use drivers_evergreen_tools.Mongodl.Version.{collate_mdb_version}
use drivers_evergreen_tools.Mongodl.Version.Collation.{IsAtMost, collate_antisym, collate_trans}
use drivers_evergreen_tools.Mongodl.Database.{
  Db, Filters, DownloadableComponent, null_or, version_matches, row_matches, filtered, is_negative,
  insert_sorted, ordered, joined, iter_available,
}

-- The other row is at most as new.
abbrev pub IsNewer : DownloadableComponent → DownloadableComponent → Type 0
IsNewer row other = (c : ℤ) × (collate_mdb_version other.version row.version ≡ ok c) × IsAtMost c

-- Every row is newer than those behind it.
abbrev pub NewestFirst : List DownloadableComponent → Type 0
NewestFirst [] = Unit
NewestFirst (row ∷ rows) = All (IsNewer row) rows × NewestFirst rows

negative-IsAtMost : (c : ℤ) → is_negative c ≡ true → IsAtMost c
negative-IsAtMost (pos n) h = ground arith
negative-IsAtMost (negsuc n) h = λ e. ground arith

negate-IsAtMost : (c : ℤ) → is_negative c ≡ false → IsAtMost (negate c)
negate-IsAtMost (pos zero) h = λ e. ground arith
negate-IsAtMost (pos (suc n)) h = λ e. ground arith
negate-IsAtMost (negsuc n) h = ground arith

IsNewer-trans : (a b c : DownloadableComponent) → IsNewer a b → IsNewer b c → IsNewer a c
IsNewer-trans a b c (x, hx, lx) (y, hy, ly) =
    collate_trans c.version b.version a.version y x hy hx ly lx

insert_sorted-All :
    (P : DownloadableComponent → Type 0) (row : DownloadableComponent)
    (rows out : List DownloadableComponent)
    → insert_sorted row rows ≡ ok out
    → P row
    → All P rows
    → All P out
unfolding insert_sorted
insert_sorted-All P row [] out h p ps = subst (All P) (ok-injective h) (p, ps)
insert_sorted-All P row (other ∷ rows) out h p ps =
    let (c, e, k) = >>=-eq-ok (collate_mdb_version row.version other.version) _ h in
    elim (Bool-cases (is_negative c)) [
      | inl n ↦
          let (rest, f, g) = >>=-eq-ok (insert_sorted row rows) _ (rw n at k) in
          subst (All P) (ok-injective g) (ps.0, insert_sorted-All P row rows rest f p ps.1)
      | inr n ↦ subst (All P) (ok-injective (rw n at k)) (p, ps)
    ]

insert_sorted-NewestFirst :
    (row : DownloadableComponent) (rows out : List DownloadableComponent)
    → insert_sorted row rows ≡ ok out
    → NewestFirst rows
    → NewestFirst out
unfolding insert_sorted
insert_sorted-NewestFirst row [] out h s = subst NewestFirst (ok-injective h) (tt, tt)
insert_sorted-NewestFirst row (other ∷ rows) out h s =
    let (c, e, k) = >>=-eq-ok (collate_mdb_version row.version other.version) _ h in
    elim (Bool-cases (is_negative c)) [
      | inl n ↦
          let (rest, f, g) = >>=-eq-ok (insert_sorted row rows) _ (rw n at k) in
          subst NewestFirst (ok-injective g) (
            insert_sorted-All (IsNewer other) row rows rest f (c, e, negative-IsAtMost c n) s.0,
            insert_sorted-NewestFirst row rows rest f s.1,
          )
      | inr n ↦
          let flipped = (collate_antisym row.version other.version c e).0 in
          let newer : IsNewer row other = (negate c, flipped, negate-IsAtMost c n) in
          subst NewestFirst (ok-injective (rw n at k))
            ((newer, All-map (λ r. IsNewer-trans row other r newer) rows s.0), s)
    ]

pub ordered_lem :
    (P : DownloadableComponent → Type 0) (rows out : List DownloadableComponent)
    → ordered rows ≡ ok out
    → All P rows
    → NewestFirst out × All P out
unfolding ordered
ordered_lem P [] out h p =
    (subst NewestFirst (ok-injective h) tt, subst (All P) (ok-injective h) tt)
ordered_lem P (row ∷ rows) out h p =
    let (mid, e, k) = >>=-eq-ok (ordered rows) _ h in
    let (newest, all_mid) = ordered_lem P rows mid e p.1 in
    (insert_sorted-NewestFirst row mid out k newest, insert_sorted-All P row mid out k p.0 all_mid)

-- What is asked for is there; nothing may be asked for.
abbrev pub IsAsked : Option Text → Text → Type 0
IsAsked none value = Unit
IsAsked (some wanted) value = value ≡ wanted

-- The row has what each filter asks for, and a version that the CASE of the query takes.
pub record Matches (filters : Filters) (row : DownloadableComponent) : Type 0 where
  pub component : IsAsked filters.by_component row.key
  pub target : IsAsked filters.by_target row.target
  pub arch : IsAsked filters.by_arch row.arch
  pub edition : IsAsked filters.by_edition row.edition
  pub version : version_matches filters.by_version row.version ≡ ok true

null_or-IsAsked : (o : Option Text) (value : Text) → null_or o value ≡ true → IsAsked o value
unfolding null_or
null_or-IsAsked none value h = tt
null_or-IsAsked (some wanted) value h = (text_eq_iff value wanted).0 h

both_true : (x y : Bool) → (x && y) ≡ true → (x ≡ true) × (y ≡ true)
both_true true true h = (refl, refl)
both_true true false h = cc
both_true false y h = cc

row_matches-Matches :
    (filters : Filters) (row : DownloadableComponent)
    → row_matches filters row ≡ ok true
    → Matches filters row
unfolding row_matches
row_matches-Matches filters row h =
    let others =
      null_or filters.by_component row.key
      && (null_or filters.by_target row.target
          && (null_or filters.by_arch row.arch && null_or filters.by_edition row.edition)) in
    elim (Bool-cases others) [
      | inl e ↦
          let (c, rest) = both_true _ _ e in
          let (t, rest') = both_true _ _ rest in
          let (a, ed) = both_true _ _ rest' in
          record {
            component = null_or-IsAsked filters.by_component row.key c;
            target = null_or-IsAsked filters.by_target row.target t;
            arch = null_or-IsAsked filters.by_arch row.arch a;
            edition = null_or-IsAsked filters.by_edition row.edition ed;
            version = rw e at h;
          }
      | inr e ↦ absurd (ground (arith, rw e at h))
    ]

filtered-Matches :
    (filters : Filters) (rows out : List DownloadableComponent)
    → filtered filters rows ≡ ok out
    → All (Matches filters) out
unfolding filtered
filtered-Matches filters [] out h = subst (All (Matches filters)) (ok-injective h) tt
filtered-Matches filters (row ∷ rows) out h =
    let (matches, e, k) = >>=-eq-ok (row_matches filters row) _ h in
    let (rest, f, g) = >>=-eq-ok (filtered filters rows) _ k in
    let all_rest = filtered-Matches filters rows rest f in
    elim (Bool-cases matches) [
      | inl t ↦
          subst (All (Matches filters)) (ok-injective (rw t at g))
            (row_matches-Matches filters row (rw t at e), all_rest)
      | inr n ↦ subst (All (Matches filters)) (ok-injective (rw n at g)) all_rest
    ]

-- A query that succeeds returns rows that have the component, target, architecture and edition that
-- its filters ask for, and a version that the CASE of the query takes, each of them at least as new as
-- those behind it: the first one, which is the one that is downloaded, is the newest.
pub iter_available-NewestFirst :
    (filters : Filters) (db : Db) (rows : List DownloadableComponent)
    → iter_available filters db ≡ ok rows
    → NewestFirst rows × All (Matches filters) rows
unfolding iter_available
iter_available-NewestFirst filters db rows h =
    let (found, e, k) = >>=-eq-ok (filtered filters (joined db.mdl_components db)) _ h in
    ordered_lem (Matches filters) found rows k
      (filtered-Matches filters (joined db.mdl_components db) found e)
