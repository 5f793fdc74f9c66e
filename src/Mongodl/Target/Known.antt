-- ===== src/Mongodl/Target/Known.antt =====
-- Which targets are inferred, and for which distributions none is.
use drivers_evergreen_tools.Common.{
  ◌≡◌, refl, true, inl, inr, List, [], ◌∷◌, Option, none, some, Option-cases, any, All, arith, ok,
  raise, >>=-eq-ok,
}
use drivers_evergreen_tools.Common.Text.{Text, codes, text_eq, text_eq_iff}
use drivers_evergreen_tools.Mongodl.Target.{
  unmapped_version, get, first_matching, lower, upstream, upstream_of, mapped_version, or_no_table,
  target_in, target_of, has_value, is_distro_target,
}
use drivers_evergreen_tools.Mongodl.Target.Tables.{distro_id_to_target}

first_matching-has_value :
    (version found : Text) (table : List (Text × Text))
    → first_matching version table ≡ some found
    → has_value found table ≡ true
unfolding first_matching has_value
first_matching-has_value version found [] h = ground arith
first_matching-has_value version found ((pattern, f) ∷ table) h =
    ground (arith, first_matching-has_value version found table, text_eq_iff f found)

get-any :
    (key found : Text) (table : List (Text × Text)) (tables : List (Text × List (Text × Text)))
    → get key tables ≡ some table
    → has_value found table ≡ true
    → any (λ (name, t). has_value found t) tables ≡ true
unfolding get
get-any key found table [] h v = ground arith
get-any key found table ((k, t) ∷ tables) h v = ground (arith, get-any key found table tables)

target_in_known :
    (os_id ver_id target : Text) (o : Option (List (Text × Text)))
    → get os_id distro_id_to_target ≡ o
    → target_in os_id ver_id o ≡ ok target
    → is_distro_target target ≡ true
unfolding target_in is_distro_target
target_in_known os_id ver_id target none e h = ground arith
target_in_known os_id ver_id target (some table) e h =
    elim (Option-cases (first_matching ver_id table)) [
      | inl n ↦ ground arith
      | inr (found, f) ↦
          get-any os_id target table distro_id_to_target e
            (first_matching-has_value ver_id target table (ground arith))
    ]

-- A target that is inferred from a distribution and its version is one of the targets of the table
-- against which the imported downloads are checked.
target_of_lem :
    (os_id ver_id target : Text)
    → target_of os_id ver_id ≡ ok target
    → is_distro_target target ≡ true
unfolding target_of
target_of_lem os_id ver_id target h =
    let (found, e, g) = >>=-eq-ok (upstream os_id ver_id) _ h in
    target_in_known (lower found.0) found.1 target _ refl g

-- The derived distributions that have no table of versions.
abbrev pub untabled : List Text
untabled =
    codes "centos"
    ∷ codes "mint"
    ∷ codes "opensuse-leap"
    ∷ codes "opensuse"
    ∷ codes "redhat"
    ∷ codes "rocky"
    ∷ []

-- No version of CentOS, Mint, openSUSE, Red Hat (under its old name) or Rocky Linux has a target,
-- although these distributions are mapped to ones that have.
pub target_of-untabled :
    (ver_id : Text)
    → All (λ os_id. target_of os_id ver_id ≡ raise (unmapped_version os_id ver_id)) untabled
unfolding target_of upstream upstream_of mapped_version or_no_table get first_matching text_eq
target_of-untabled ver_id = (refl, (refl, (refl, (refl, (refl, (refl, tt))))))
