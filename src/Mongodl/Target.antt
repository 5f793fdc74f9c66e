-- ===== src/Mongodl/Target.antt =====
-- The target of a host: `infer_target` and `infer_target_from_os_release` of mongodl.py.
pub mod Tables
pub mod Known
use drivers_evergreen_tools.Common.{
  ℕ, ◌+◌, Bool, true, false, ◌&&◌, ◌||◌, not, List, [], ◌∷◌, ◌++◌, Option, none, some, any, leb,
  ◌==◌, if◌then◌else◌, Result, ok, raise, ◌>>=◌,
}
use drivers_evergreen_tools.Common.Text.{Text, codes, text_eq}
use drivers_evergreen_tools.Common.Text.Regex.{expect_all}
use drivers_evergreen_tools.Mongodl.Pattern.{fnmatch}
use drivers_evergreen_tools.Mongodl.Url.{is_prefix}
use drivers_evergreen_tools.Mongodl.Target.Tables.{
  distro_id_map, distro_version_map, distro_id_to_target,
}

-- The AssertionErrors and RuntimeErrors of the inference, and the IndexError for an empty version.
pub data Error : Type 0 where
  no_id no_version_id no_os_release empty_version : Error
  unmapped_version : Text → Text → Error
  unknown_distro : Text → Error
  unknown_version : Text → Text → Error

-- The line that starts here.
line_of : Text → Text
line_of [] = []
line_of (c ∷ s) = let rest = line_of s in if c == 10 then [] else c ∷ rest

-- The text up to the last quote, if there is one.
to_last_quote : Text → Option Text
to_last_quote [] = none
to_last_quote (c ∷ s) =
    let later = to_last_quote s in
    elim later [ some t ↦ some (c ∷ t) | none ↦ if c == b'"' then some [] else none ]

or_line : Option Text → Text → Text
or_line none line = line
or_line (some t) line = t

-- `("?)(.*)\1`, the second group.
quoted_value : Text → Text
unfolding to_last_quote or_line
quoted_value [] = []
quoted_value (c ∷ s) = if c == b'"' then or_line (to_last_quote s) (c ∷ s) else c ∷ s

value_here : Option Text → Option Text
unfolding line_of quoted_value
value_here none = none
value_here (some rest) = some (quoted_value (line_of rest))

is_word : ℕ → Bool
is_word c =
    (leb b'0' c && leb c b'9')
    || (leb b'A' c && leb c b'Z')
    || (leb b'a' c && leb c b'z')
    || c == b'_'

-- `search` for the field; `\b` in front of the name is asked for by `bounded`.
search_from : Bool → Text → Bool → Text → Option Text
unfolding value_here is_word
search_from bounded name inside [] = none
search_from bounded name inside (c ∷ s) =
    let later = search_from bounded name (is_word c) s in
    let here = value_here (expect_all name (c ∷ s)) in
    if bounded && inside then later else elim here [ some v ↦ some v | none ↦ later ]

unfoldable pub find_id : Text → Option Text
unfolding search_from
find_id os_rel = search_from true (codes "ID=") false os_rel

unfoldable pub find_version_id : Text → Option Text
unfolding search_from
find_version_id os_rel = search_from false (codes "VERSION_ID=") false os_rel

-- `table.get(key)`
unfoldable pub get {ℓ} : {A : Type ℓ} → Text → List (Text × A) → Option A
get key [] = none
get key ((k, v) ∷ table) = if text_eq k key then some v else get key table

-- The first entry of a table whose pattern matches the version.
unfoldable pub first_matching : Text → List (Text × Text) → Option Text
first_matching version [] = none
first_matching version ((pattern, found) ∷ table) =
    if fnmatch version pattern then some found else first_matching version table

lower_char : ℕ → ℕ
lower_char c = if leb b'A' c && leb c b'Z' then c + 32 else c

-- `os_id.lower()`
unfoldable pub lower : Text → Text
unfolding lower_char
lower [] = []
lower (c ∷ s) = lower_char c ∷ lower s

-- `target in list(distro.values())` for some distro.
unfoldable pub has_value : Text → List (Text × Text) → Bool
has_value target [] = false
has_value target ((pattern, found) ∷ table) = text_eq found target || has_value target table

unfoldable pub is_distro_target : Text → Bool
unfolding has_value
is_distro_target target = any (λ (name, table). has_value target table) distro_id_to_target

mapped_version : Text → Text → Text → Option Text → Result Error (Text × Text)
mapped_version os_id mapped_id ver_id none = raise (unmapped_version os_id ver_id)
mapped_version os_id mapped_id ver_id (some version) = ok (mapped_id, version)

or_no_table : Option (List (Text × Text)) → List (Text × Text)
or_no_table none = []
or_no_table (some table) = table

-- The distribution and version that a derived distribution stands for.
upstream_of : Text → Text → Option Text → Result Error (Text × Text)
upstream_of os_id ver_id none = ok (os_id, ver_id)
upstream_of os_id ver_id (some mapped_id) =
    mapped_version os_id mapped_id ver_id
      (first_matching ver_id (or_no_table (get os_id distro_version_map)))

unfoldable pub upstream : Text → Text → Result Error (Text × Text)
unfolding upstream_of mapped_version or_no_table
upstream os_id ver_id = upstream_of os_id ver_id (get os_id distro_id_map)

target_in : Text → Text → Option (List (Text × Text)) → Result Error Text
target_in os_id ver_id none = raise (unknown_distro os_id)
target_in os_id ver_id (some table) = elim (first_matching ver_id table) [
  | none ↦ raise (unknown_version os_id ver_id)
  | some target ↦ ok target
]

unfoldable pub target_of : Text → Text → Result Error Text
unfolding target_in
target_of os_id ver_id = do
  found ← upstream os_id ver_id
  let id = lower found.0
  target_in id found.1 (get id distro_id_to_target)

required : Error → Option Text → Result Error Text
required e none = raise e
required e (some t) = ok t

-- There are no downloads for Arch Linux itself.
by_id : Text → Text → Result Error Text
by_id os_id os_rel =
    if text_eq os_id (codes "arch")
    then ok (codes "rhel80")
    else required no_version_id (find_version_id os_rel) >>= target_of os_id

unfoldable pub infer_target_from_os_release : Text → Result Error Text
unfolding required by_id
infer_target_from_os_release os_rel = do os_id ← required no_id (find_id os_rel); by_id os_id os_rel

old_target : Option Text → Result Error Text
old_target none = ok (codes "macos")
old_target (some []) = raise empty_version
old_target (some (c ∷ version)) =
    if is_prefix (codes "4.0") (c ∷ version) || c == b'3'
    then ok (codes "osx")
    else ok (codes "macos")

-- The contents of the candidate files that exist.
first_existing : List (Option Text) → Result Error Text
first_existing [] = raise no_os_release
first_existing (none ∷ cands) = first_existing cands
first_existing (some os_rel ∷ cands) = infer_target_from_os_release os_rel

unfoldable pub infer_target : Text → List (Option Text) → Option Text → Result Error Text
unfolding old_target first_existing
infer_target platform cands version =
    if text_eq platform (codes "win32")
    then ok (codes "windows")
    else if text_eq platform (codes "darwin")
    then old_target version
    else first_existing cands
