-- ===== src/Orchestration/Json.antt =====
-- The values of an orchestration file, and the members that the programs look for in it. A member
-- is an object with the key "ipv6"; `traverse` collects references to them, and the loop behind it
-- changes each where it stands. Here `members` is that list, and `refill` puts the changed
-- members back.
pub mod Each
pub mod Refill
use drivers_evergreen_tools.Common.{
  ℕ, ◌≡◌, ◌∙◌, refl, arith, Bool, true, false, ◌||◌, not, List, [], ◌∷◌, ◌++◌, Option, none, some,
  if◌then◌else◌,
}
use drivers_evergreen_tools.Common.Text.{Text, codes, text_eq, text_eq_iff}

mutual
  pub data Value : Type 0 where
    null : Value
    flag : Bool → Value
    -- A number, as `str` prints it.
    number : Text → Value
    text : Text → Value
    arr : Items → Value
    obj : Fields → Value

  pub data Items : Type 0 where
    nil : Items
    cons : Value → Items → Items

  pub data Fields : Type 0 where
    end : Fields
    field : Text → Value → Fields → Fields

-- root.get(key)
unfoldable pub get : Text → Fields → Option Value
get key end = none
get key (field k v fs) = if text_eq k key then some v else get key fs

-- root[key] = value
unfoldable pub put : Text → Value → Fields → Fields
put key value end = field key value end
put key value (field k v fs) =
    if text_eq k key then field k value fs else field k v (put key value fs)

pub get-put :
    (key other : Text) (value : Value) (fs : Fields)
    → get other (put key value fs) ≡ (if text_eq key other then some value else get other fs)
unfolding get put
get-put key other value end = ground arith
get-put key other value (field k v fs) = ground (
  arith,
  text_eq_iff k key,
  text_eq_iff k other,
  text_eq_iff key other,
  get-put key other value fs,
)

pub put_other :
    (mine key : Text) (v : Value) (fs : Fields)
    → text_eq mine key ≡ false
    → get key (put mine v fs) ≡ get key fs
put_other mine key v fs h = get-put mine key v fs ∙ rw h

pub put_self : (key : Text) (v : Value) (fs : Fields) → get key (put key v fs) ≡ some v
put_self key v fs = get-put key key v fs ∙ rw ((text_eq_iff key key).1 refl)

abbrev pub is_some {ℓ} : {A : Type ℓ} → Option A → Bool
is_some none = false
is_some (some a) = true

-- `key in root`
abbrev pub has : Text → Fields → Bool
has key fs = is_some (get key fs)

abbrev pub is_member : Fields → Bool
is_member fs = has (codes "ipv6") fs

abbrev first_or : Fields → List Fields → Value × List Fields
first_or fs [] = (obj fs, [])
first_or fs (m ∷ ms) = (obj m, ms)

abbrev kept_item : Value × List Fields → (List Fields → Items × List Fields) → Items × List Fields
kept_item (v, ms) rest = (cons v (rest ms).0, (rest ms).1)

abbrev kept_field :
    Text → Value × List Fields → (List Fields → Fields × List Fields) → Fields × List Fields
kept_field k (v, ms) rest = (field k v (rest ms).0, (rest ms).1)

-- `skip` are the keys that a traversal passes over.
module _ (skip : Text → Bool) where
  unfoldable mutual
    pub members : Value → List Fields
    members (obj fs) = let inside = members_fields fs in if is_member fs then fs ∷ [] else inside
    members (arr xs) = members_items xs
    members null = []
    members (flag b) = []
    members (number t) = []
    members (text t) = []

    pub members_items : Items → List Fields
    members_items nil = []
    members_items (cons v xs) = members v ++ members_items xs

    pub members_fields : Fields → List Fields
    members_fields end = []
    members_fields (field k v fs) =
        let inside = members v ++ members_fields fs in
        let rest = members_fields fs in if skip k then rest else inside

  unfoldable mutual
    pub refill : Value → List Fields → Value × List Fields
    refill (obj fs) ms =
        let inside = refill_fields fs ms in
        if is_member fs then first_or fs ms else (obj inside.0, inside.1)
    refill (arr xs) ms = (arr (refill_items xs ms).0, (refill_items xs ms).1)
    refill null ms = (null, ms)
    refill (flag b) ms = (flag b, ms)
    refill (number t) ms = (number t, ms)
    refill (text t) ms = (text t, ms)

    pub refill_items : Items → List Fields → Items × List Fields
    refill_items nil ms = (nil, ms)
    refill_items (cons v xs) ms = kept_item (refill v ms) (refill_items xs)

    pub refill_fields : Fields → List Fields → Fields × List Fields
    refill_fields end ms = (end, ms)
    refill_fields (field k v fs) ms =
        let inside = kept_field k (refill v ms) (refill_fields fs) in
        let rest = kept_field k (v, ms) (refill_fields fs) in if skip k then rest else inside
