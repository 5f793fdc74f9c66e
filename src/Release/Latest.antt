-- ===== src/Release/Latest.antt =====
-- `latest_version` returns the greatest version that a tag spells.
use drivers_evergreen_tools.Common.{
  ◌≡◌, refl, sym, ◌⊎◌, inl, inr, false, none, some, List, [], ◌∷◌, arith, All, Some, Bool-cases,
  Option-cases,
}
use drivers_evergreen_tools.Common.Text.{Text}
use drivers_evergreen_tools.Release.{
  Version, parse_version, less, parsed_versions, max_version, latest_version,
}
use drivers_evergreen_tools.Release.Order.{less_irrefl, less_asym, not_less_trans}

abbrev IsBound : Version → Version → Type 0
IsBound m v = less m v ≡ false

-- The fold keeps a bound of what it has seen, and its result was seen.
max_version_lem :
    (m best : Version) (vs : List Version)
    → max_version best vs ≡ m
    → IsBound m best × All (IsBound m) vs × ((m ≡ best) ⊎ Some (λ v. m ≡ v) vs)
unfolding max_version
max_version_lem m best [] e = (rw (← e) (less_irrefl best), tt, inl (sym e))
max_version_lem m best (v ∷ vs) e = elim (Bool-cases (less best v)) [
  | inl h ↦
      let (top, bound, mem) = max_version_lem m v vs (ground arith) in
      (not_less_trans m v best top (less_asym best v h), (top, bound), inr mem)
  | inr h ↦
      let (top, bound, mem) = max_version_lem m best vs (ground arith) in
      (
        top,
        (not_less_trans m best v top h, bound),
        elim mem [ inl k ↦ inl k | inr k ↦ inr (inr k) ],
      )
]

-- The tag spells a version that `m` is not below.
abbrev pub TagBound : Version → Text → Type 0
TagBound m tag = (v : Version) → parse_version tag ≡ some v → less m v ≡ false

bound_tags :
    (m : Version) (tags : List Text)
    → All (IsBound m) (parsed_versions tags)
    → All (TagBound m) tags
unfolding parsed_versions
bound_tags m [] h = tt
bound_tags m (tag ∷ tags) h = elim (Option-cases (parse_version tag)) [
  | inl e ↦ (λ v k. cc, bound_tags m tags (rw (e, parsed_versions) at h))
  | inr (v, e) ↦
      let h' : (less m v ≡ false) × All (IsBound m) (parsed_versions tags) = ground arith in
      (λ u k. ground arith, bound_tags m tags h'.1)
]

source_tag :
    (m : Version) (tags : List Text)
    → Some (λ v. m ≡ v) (parsed_versions tags)
    → Some (λ tag. parse_version tag ≡ some m) tags
unfolding parsed_versions
source_tag m [] h = h
source_tag m (tag ∷ tags) h = elim (Option-cases (parse_version tag)) [
  | inl e ↦ inr (source_tag m tags (rw (e, parsed_versions) at h))
  | inr (v, e) ↦
      let h' : (m ≡ v) ⊎ Some (λ v. m ≡ v) (parsed_versions tags) = rw (e, parsed_versions) at h in
      elim h' [ inl k ↦ inl (ground arith) | inr k ↦ inr (source_tag m tags k) ]
]

greatest_of :
    (tags : List Text) (m : Version) (l : List Version)
    → parsed_versions tags ≡ l
    → latest_version tags ≡ some m
    → All (IsBound m) l × Some (λ v. m ≡ v) l
unfolding latest_version
greatest_of tags m [] e h = cc (e, h)
greatest_of tags m (v ∷ vs) e h =
    let (top, bound, mem) = max_version_lem m v vs (ground arith) in ((top, bound), mem)

-- The result is the version of one of the tags, and no tag spells a greater one.
pub latest_version-greatest :
    (tags : List Text) (m : Version)
    → latest_version tags ≡ some m
    → All (TagBound m) tags × Some (λ tag. parse_version tag ≡ some m) tags
latest_version-greatest tags m h =
    let (bound, mem) = greatest_of tags m (parsed_versions tags) refl h in
    (bound_tags m tags bound, source_tag m tags mem)

no_versions :
    (tags : List Text) → parsed_versions tags ≡ [] → All (λ tag. parse_version tag ≡ none) tags
unfolding parsed_versions
no_versions [] h = tt
no_versions (tag ∷ tags) h = ground (arith, no_versions tags)

-- There is no result exactly when no tag spells a version.
pub latest_version-none :
    (tags : List Text) → latest_version tags ≡ none → All (λ tag. parse_version tag ≡ none) tags
unfolding latest_version
latest_version-none tags h = no_versions tags (ground arith)
