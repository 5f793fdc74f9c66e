-- ===== src/Mongodl/Extract.antt =====
-- Extracting the members of an archive: `_expand_archive`, `_expand_tgz`, `_expand_zip` and
-- `_maybe_extract_member` of mongodl.py.
pub mod Selected
pub mod Frame
use Prim.Native.Nat.{bit_or}
use drivers_evergreen_tools.Common.{
  ℕ, zero, suc, ◌+◌, ◌-◌, ◌≡◌, Bool, true, false, ◌&&◌, ◌||◌, not, List, [], ◌∷◌, ◌++◌, Option,
  none, some, map, drop, length, any, leb, ltb, ◌==◌, if◌then◌else◌, Result, ok, raise,
}
use drivers_evergreen_tools.Common.Exec.{Exec, pure, stop, ◌>>=◌, ◌>>◌}
use drivers_evergreen_tools.Common.Text.{Text, codes, text_eq}
use drivers_evergreen_tools.Mongodl.Pattern.{parts_of, pathjoin, test_pattern}
use drivers_evergreen_tools.Mongodl.Files.{
  Location, Files, OsError, not_a_directory, is_dir, mkdir, write_file,
}

pub data Error : Type 0 where
  os : OsError → Error
  -- What opening the archive or a member raised.
  broken : Text → Error
  -- RuntimeError
  unknown_extension : Text → Error
  -- Never raised: the tests of the patterns return.
  no_return : Error

-- A member of an archive: its name, whether it is a directory, its mode bits, and what opening
-- it returns.
pub record Member : Type 0 where
  pub name : Text
  pub is_dir : Bool
  pub mode : ℕ
  pub content : Result Error Text

-- The arguments that select members and place them.
pub record Options : Type 0 where
  pub out : Location
  pub pattern : Option Text
  pub strip : ℕ
  pub test : Bool

unfoldable pub is_anchor : Text → Bool
is_anchor part = text_eq part (codes "/") || text_eq part (codes "//")

parent : Location → Location
parent [] = []
parent (name ∷ up) = up

-- `..` leads back up.
unfoldable pub is_up : Text → Bool
is_up part = text_eq part (codes "..")

unfoldable pub descend : Location → List Text → Location
unfolding is_up parent
descend at [] = at
descend at (part ∷ parts) =
    let below = descend (part ∷ at) parts in
    let above = descend (parent at) parts in if is_up part then above else below

-- The directories that a path goes into and back up from.
unfoldable pub detours : Location → List Text → List Location
unfolding is_up parent
detours at [] = []
detours at (part ∷ parts) =
    let below = detours (part ∷ at) parts in
    let above = detours (parent at) parts in if is_up part then at ∷ above else below

-- `Path(out) / stripped`: an absolute path takes the place of `out`.
unfoldable pub destination : Location → List Text → Location
unfolding is_anchor descend
destination out [] = out
destination out (part ∷ parts) =
    if is_anchor part then descend [] parts else descend out (part ∷ parts)

unfoldable pub detours_of : Location → List Text → List Location
unfolding is_anchor detours
detours_of out [] = []
detours_of out (part ∷ parts) =
    if is_anchor part then detours [] parts else detours out (part ∷ parts)

-- `PurePath(pattern) if pattern else None`
unfoldable pub pattern_path : Option Text → Option (List Text)
pattern_path none = none
pattern_path (some []) = none
pattern_path (some (c ∷ s)) = some (parts_of (c ∷ s))

lift_os : {A : Type 0} → Result OsError A × Files → Result Error A × Files
lift_os (ok a, files) = (ok a, files)
lift_os (raise e, files) = (raise (os e), files)

unfoldable pub on_files : {A : Type 0} → Exec Files OsError A → Exec Files Error A
unfolding lift_os
on_files m files = lift_os (m files)

opened : Result Error Text → Exec Files Error Text
opened content files = (content, files)

-- `_mkdir` of a path with `..` makes the directory before it, which has to be one.
enter : Location → Exec Files OsError (Unit {0})
enter at = mkdir at >> λ files.
    if is_dir files at then (ok tt, files) else (raise (not_a_directory at), files)

unfoldable pub enter_all : List Location → Exec Files OsError (Unit {0})
unfolding enter
enter_all [] = pure tt
enter_all (at ∷ more) = enter at >> enter_all more

-- The directories on the detours, and the place itself.
unfoldable pub place : Bool → List Location → Location → ℕ → Result Error Text → Exec Files Error ℕ
unfolding parent opened
place true ups dest mode content = do on_files (enter_all ups); on_files (mkdir dest); pure 1
place false ups dest mode content = do
  infile ← opened content
  on_files (enter_all ups)
  on_files (mkdir (parent dest))
  on_files (write_file dest infile mode)
  pure 1

-- Behind the filters.
extract_matched : Options → Member → Option Bool → Exec Files Error ℕ
extract_matched options member none = stop no_return
extract_matched options member (some false) = pure 0
extract_matched options member (some true) =
    if options.test
    then pure 1
    else let stripped = pathjoin (drop options.strip (parts_of member.name)) in
      place member.is_dir (detours_of options.out stripped) (destination options.out stripped)
        member.mode member.content

unfoldable pub maybe_extract_member : Options → Member → Exec Files Error ℕ
unfolding extract_matched
maybe_extract_member options member =
    if leb (length (parts_of member.name)) options.strip
    then pure 0
    else extract_matched options member
        (test_pattern (parts_of member.name) (pattern_path options.pattern))

-- The loop of `_expand_tgz` and of `_expand_zip`, with the count so far.
unfoldable pub expand_members : ℕ → Options → List Member → Exec Files Error ℕ
expand_members n options [] = pure n
expand_members n options (member ∷ members) = do
  extracted ← maybe_extract_member options member
  expand_members (n + extracted) options members

-- A member of a tar archive.
pub record TarMember : Type 0 where
  pub tar_name : Text
  pub tar_isdir : Bool
  pub tar_mode : ℕ
  pub extractfile : Result Error Text

unfoldable pub of_tar : TarMember → Member
of_tar mem = record {
  name = mem.tar_name;
  is_dir = mem.tar_isdir;
  mode = bit_or mem.tar_mode 0o222;
  content = mem.extractfile;
}

-- A member of a zip archive.
pub record ZipMember : Type 0 where
  pub filename : Text
  pub zip_content : Result Error Text

ends_with_slash : Text → Bool
ends_with_slash [] = false
ends_with_slash (c ∷ []) = c == b'/'
ends_with_slash (c ∷ d ∷ s) = ends_with_slash (d ∷ s)

unfoldable pub of_zip : ZipMember → Member
unfolding ends_with_slash
of_zip item = record {
  name = item.filename;
  is_dir = ends_with_slash item.filename;
  mode = 0o777;
  content = item.zip_content;
}

expand_all : Options → Result Error (List Member) → Exec Files Error ℕ
expand_all options (ok members) = expand_members 0 options members
expand_all options (raise e) = stop e

map_ok {ℓ κ} : {A : Type ℓ} {B : Type κ} → (A → B) → Result Error A → Result Error B
map_ok f (ok a) = ok (f a)
map_ok f (raise e) = raise e

unfoldable pub expand_tgz : Options → Result Error (List TarMember) → Exec Files Error ℕ
unfolding expand_all map_ok
expand_tgz options members = expand_all options (map_ok (map of_tar) members)

unfoldable pub expand_zip : Options → Result Error (List ZipMember) → Exec Files Error ℕ
unfolding expand_all map_ok
expand_zip options members = expand_all options (map_ok (map of_zip) members)

pub data ExpandResult : Type 0 where
  empty : ExpandResult
  okay : ExpandResult

-- The text behind the last dot of a name, the dot included, unless the dot comes last.
suffix_from : Text → Text
suffix_from [] = []
suffix_from (c ∷ s) =
    let rest = suffix_from s in
    if any (λ d. d == b'.') s then rest else if c == b'.' && ltb 0 (length s) then c ∷ s else []

-- `path.suffix` of a file name: a leading dot starts no suffix.
unfoldable pub suffix_of : Text → Text
unfolding suffix_from
suffix_of [] = []
suffix_of (c ∷ s) = suffix_from s

expanded : ℕ → ExpandResult
expanded zero = empty
expanded (suc n) = okay

unfoldable pub expand_archive :
    Options
    → Text
    → (Text → Result Error (List TarMember))
    → (Text → Result Error (List ZipMember))
    → Exec Files Error ExpandResult
unfolding expanded
expand_archive options ar open_tar open_zip =
    if text_eq (suffix_of ar) (codes ".zip")
    then (expand_zip options (open_zip ar) >>= λ n. pure (expanded n))
    else if text_eq (suffix_of ar) (codes ".tgz")
    then (expand_tgz options (open_tar ar) >>= λ n. pure (expanded n))
    else stop (unknown_extension (suffix_of ar))
