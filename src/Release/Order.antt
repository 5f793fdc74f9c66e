-- ===== src/Release/Order.antt =====
-- The order of versions, and how `bump` moves in it.
use drivers_evergreen_tools.Common.{◌≡◌, String, str_eq, true, false, ok, arith, if◌then◌else◌}
use drivers_evergreen_tools.Release.{Version, less, bump}

pub less_irrefl : (v : Version) → less v v ≡ false
unfolding less
less_irrefl v = ground arith

pub less_trans : (u v w : Version) → less u v ≡ true → less v w ≡ true → less u w ≡ true
unfolding less
less_trans u v w h k = ground arith

-- What is not below `v` is above anything that `v` is above.
pub less_weaken : (u v w : Version) → less v u ≡ false → less v w ≡ true → less u w ≡ true
unfolding less
less_weaken u v w h k = ground arith

pub not_less_trans : (u v w : Version) → less u v ≡ false → less v w ≡ false → less u w ≡ false
unfolding less
not_less_trans u v w h k = ground arith

pub less_asym : (v w : Version) → less v w ≡ true → less w v ≡ false
unfolding less
less_asym v w h = ground arith

-- A version with the parts below the level set to zero.
abbrev pub truncated : String → Version → Version
truncated level v =
    if str_eq level "patch"
    then v
    else if str_eq level "minor"
    then record v { patch = 0 }
    else record v { minor = 0; patch = 0 }

-- A successful `bump` gives the least version beyond `v` in the parts that the level counts, with
-- the parts below the level at zero; it is above `v`.
pub bump_least :
    (v w : Version) (level : String)
    → bump v level ≡ ok w
    → (less v w ≡ true)
      × (truncated level w ≡ w)
      × ((u : Version) → less (truncated level v) (truncated level u) ≡ true → less u w ≡ false)
unfolding bump less
bump_least v w level h = (ground arith, ground arith, λ u k. ground arith)
