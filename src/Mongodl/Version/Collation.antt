-- ===== src/Mongodl/Version/Collation.antt =====
-- The collation is a total order on the versions, up to the tuple.
use drivers_evergreen_tools.Common.{
  ◌≡◌, ◌≢◌, ◌↔◌, refl, true, false, arith, ok, >>=-eq-ok, ok-injective, sym, subst, ◌∙◌,
}
use drivers_evergreen_tools.Common.Int.{ℤ, pos, negate}
use drivers_evergreen_tools.Common.Text.{Text}
use drivers_evergreen_tools.Mongodl.Version.{
  Tuple, version_tup, less, compare_tuples, collate_mdb_version,
}

pub less_trans : (u v w : Tuple) → less u v ≡ true → less v w ≡ true → less u w ≡ true
unfolding less
less_trans u v w h k = ground arith

pub less_irrefl : (v : Tuple) → less v v ≡ false
unfolding less
less_irrefl v = ground arith

pub less_asym : (v w : Tuple) → less v w ≡ true → less w v ≡ false
unfolding less
less_asym v w h = ground arith

pub less_total : (v w : Tuple) → less v w ≡ false → less w v ≡ false → v ≡ w
unfolding less
less_total v w h k = ground arith

-- A version that is not below `v` is above what `v` is above.
less_cotrans : (u v w : Tuple) → less u v ≡ false → less v w ≡ false → less u w ≡ false
unfolding less
less_cotrans u v w h k = ground arith

-- The collation does not put the left one above.
abbrev pub IsAtMost : ℤ → Type 0
IsAtMost c = c ≢ pos 1

IsAtMost-less : (v w : Tuple) → IsAtMost (compare_tuples v w) → less w v ≡ false
unfolding compare_tuples
IsAtMost-less v w h = ground (arith, less_asym v w)

less-IsAtMost : (v w : Tuple) → less w v ≡ false → IsAtMost (compare_tuples v w)
unfolding compare_tuples
less-IsAtMost v w h = ground arith

compare_trans :
    (u v w : Tuple)
    → IsAtMost (compare_tuples u v)
    → IsAtMost (compare_tuples v w)
    → IsAtMost (compare_tuples u w)
compare_trans u v w h k =
    less-IsAtMost u w (less_cotrans w v u (IsAtMost-less v w k) (IsAtMost-less u v h))

compare_flip : (v w : Tuple) → compare_tuples w v ≡ negate (compare_tuples v w)
unfolding compare_tuples
compare_flip v w = ground (arith, less_asym v w)

compare_zero : (v w : Tuple) → (compare_tuples v w ≡ pos 0) ↔ (v ≡ w)
unfolding compare_tuples
compare_zero v w =
    (λ h. less_total v w (ground arith) (ground arith), λ e. rw (e, less_irrefl w) refl)

-- What a collation of two texts has read.
collate_reads :
    (a b : Text) {x : ℤ}
    → collate_mdb_version a b ≡ ok x
    → (v : Tuple) × (w : Tuple) × (version_tup a ≡ ok v)
      × (version_tup b ≡ ok w)
      × (compare_tuples v w ≡ x)
unfolding collate_mdb_version
collate_reads a b h =
    let (v, hv, k) = >>=-eq-ok (version_tup a) _ h in
    let (w, hw, l) = >>=-eq-ok (version_tup b) _ k in (v, w, hv, hw, ok-injective l)

collate_runs :
    (a b : Text) {v w : Tuple}
    → version_tup a ≡ ok v
    → version_tup b ≡ ok w
    → collate_mdb_version a b ≡ ok (compare_tuples v w)
unfolding collate_mdb_version
collate_runs a b hv hw = rw (hv, hw) refl

-- Swapping the two versions negates the collation, and it is 0 exactly when the two texts
-- parse to the same tuple.
pub collate_antisym :
    (a b : Text) (x : ℤ)
    → collate_mdb_version a b ≡ ok x
    → (collate_mdb_version b a ≡ ok (negate x)) × ((x ≡ pos 0) ↔ (version_tup a ≡ version_tup b))
collate_antisym a b x h =
    let (v, w, hv, hw, e) = collate_reads a b h in
    (
      rw (sym e, collate_runs b a hw hv, compare_flip v w) refl,
      (
        λ z. rw (hv, hw, (compare_zero v w).0 (e ∙ z)) refl,
        λ z. sym e ∙ (compare_zero v w).1 (ok-injective (sym hv ∙ z ∙ hw)),
      ),
    )

-- Where `a` collates at most at `b` and `b` at most at `c`, `a` and `c` collate too, and `a`
-- at most at `c`.
pub collate_trans :
    (a b c : Text) (x y : ℤ)
    → collate_mdb_version a b ≡ ok x
    → collate_mdb_version b c ≡ ok y
    → IsAtMost x
    → IsAtMost y
    → (z : ℤ) × (collate_mdb_version a c ≡ ok z) × IsAtMost z
collate_trans a b c x y hx hy lx ly =
    let (u, v, hu, hv, e) = collate_reads a b hx in
    let (v', w, hv', hw, f) = collate_reads b c hy in
    let same : v' ≡ v = ok-injective (sym hv' ∙ hv) in
    (
      compare_tuples u w,
      collate_runs a c hu hw,
      compare_trans u v w (subst IsAtMost (sym e) lx)
          (subst (λ t. IsAtMost (compare_tuples t w)) same (subst IsAtMost (sym f) ly)),
    )
