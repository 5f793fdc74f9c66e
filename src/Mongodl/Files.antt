-- ===== src/Mongodl/Files.antt =====
-- The file system that mongodl.py extracts into, and `_mkdir`.
pub mod Tree
pub mod Mkdir
use drivers_evergreen_tools.Common.{
  ℕ, ◌≡◌, Bool, true, false, ◌&&◌, List, [], ◌∷◌, Option, none, some, if◌then◌else◌, Result, ok,
  raise,
}
use drivers_evergreen_tools.Common.Exec.{Exec, pure, stop, ◌>>=◌, ◌>>◌}
use drivers_evergreen_tools.Common.Text.{Text, text_eq}

-- The components of an absolute path, the innermost first; `[]` is the root.
abbrev pub Location : Type 0
Location = List Text

pub data Node : Type 0 where
  directory : Node
  file : Text → ℕ → Node

-- There are no links.
abbrev pub Files : Type 0
Files = Location → Option Node

pub data OsError : Type 0 where
  file_exists : Location → OsError
  not_a_directory : Location → OsError
  is_a_directory : Location → OsError

unfoldable pub location_eq : Location → Location → Bool
location_eq [] [] = true
location_eq [] (b ∷ q) = false
location_eq (a ∷ p) [] = false
location_eq (a ∷ p) (b ∷ q) = text_eq a b && location_eq p q

unfoldable pub put : Location → Node → Files → Files
put p node files q = if location_eq p q then some node else files q

unfoldable pub is_directory : Option Node → Bool
is_directory (some directory) = true
is_directory (some (file content mode)) = false
is_directory none = false

-- `path.is_dir()`
unfoldable pub is_dir : Files → Location → Bool
unfolding is_directory
is_dir files [] = true
is_dir files (name ∷ up) = is_directory (files (name ∷ up))

-- `path.mkdir()`
make_new : Text → Location → Option Node → Exec Files OsError (Unit {0})
make_new name up none files = (ok tt, put (name ∷ up) directory files)
make_new name up (some node) files = (raise (file_exists (name ∷ up)), files)

unfoldable pub make_dir : Text → Location → Exec Files OsError (Unit {0})
unfolding make_new
make_dir name up files =
    if is_dir files up
    then make_new name up (files (name ∷ up)) files
    else (raise (not_a_directory up), files)

ignore_existing : Result OsError (Unit {0}) × Files → Result OsError (Unit {0}) × Files
ignore_existing (raise (file_exists p), files) = (ok tt, files)
ignore_existing (raise (not_a_directory p), files) = (raise (not_a_directory p), files)
ignore_existing (raise (is_a_directory p), files) = (raise (is_a_directory p), files)
ignore_existing (ok u, files) = (ok u, files)

unfoldable pub mkdir : Location → Exec Files OsError (Unit {0})
unfolding ignore_existing
mkdir [] files = (ok tt, files)
mkdir (name ∷ up) files =
    let parent = mkdir up in
    if is_dir files (name ∷ up)
    then (ok tt, files)
    else (parent >> λ made. ignore_existing (make_dir name up made)) files

-- `open(path, "wb")`, `copyfileobj` and `chmod`.
write_at : Location → Text → ℕ → Option Node → Exec Files OsError (Unit {0})
write_at p content mode (some directory) files = (raise (is_a_directory p), files)
write_at p content mode (some (file before was)) files = (ok tt, put p (file content mode) files)
write_at p content mode none files = (ok tt, put p (file content mode) files)

unfoldable pub write_file : Location → Text → ℕ → Exec Files OsError (Unit {0})
unfolding write_at
write_file [] content mode files = (raise (is_a_directory []), files)
write_file (name ∷ up) content mode files =
    if is_dir files up
    then write_at (name ∷ up) content mode (files (name ∷ up)) files
    else (raise (not_a_directory up), files)
