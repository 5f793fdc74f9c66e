-- ===== src/Mongodl/Files/Mkdir.antt =====
-- What `_mkdir` and writing a file do to the file system.
use drivers_evergreen_tools.Common.{
  ℕ, ◌≡◌, refl, ◌∙◌, true, Bool-cases, inl, inr, [], ◌∷◌, Option, none, some, Result, ok, raise,
}
use drivers_evergreen_tools.Common.Exec.{Exec, continue, ◌>>=◌}
use drivers_evergreen_tools.Common.Text.{Text}
use drivers_evergreen_tools.Mongodl.Files.{
  Location, Node, directory, file, Files, is_directory, is_dir, make_new, make_dir, ignore_existing,
  mkdir, write_at, write_file,
}
use drivers_evergreen_tools.Mongodl.Files.Tree.{
  IsAbove, Same, Grows, Grows-refl, Grows-trans, put-Grows, put-other,
}

-- The tree grows, and nothing outside `P` changes.
pub record Effect (P : Location → Type 0) (before after : Files) : Type 0 where
  pub grows : Grows before after
  pub same : Same P before after

pub Effect-refl : (P : Location → Type 0) (files : Files) → Effect P files files
Effect-refl P files = record { grows = Grows-refl files; same = λ q h. refl }

pub Effect-trans :
    {P : Location → Type 0} {a b c : Files} → Effect P a b → Effect P b c → Effect P a c
Effect-trans g h = record {
  grows = Grows-trans g.grows h.grows;
  same = λ q n. h.same q n ∙ g.same q n;
}

pub Effect-mono :
    {P Q : Location → Type 0} {a b : Files}
    → ((q : Location) → P q → Q q)
    → Effect P a b
    → Effect Q a b
Effect-mono f g = record { grows = g.grows; same = λ q n. g.same q λ p. n (f q p) }

continue-Effect :
    {E A B : Type 0} {P : Location → Type 0} (r : Result E A) (f : A → Exec Files E B)
    (before mid : Files)
    → Effect P before mid
    → ((a : A) → Effect P mid (f a mid).1)
    → Effect P before (continue r f mid).1
unfolding continue
continue-Effect (ok a) f before mid g h = Effect-trans g (h a)
continue-Effect (raise e) f before mid g h = g

-- One operation after another.
pub bind-Effect :
    {E A B : Type 0} {P : Location → Type 0} (m : Exec Files E A) (f : A → Exec Files E B)
    (files : Files)
    → Effect P files (m files).1
    → ((a : A) (mid : Files) → Effect P mid (f a mid).1)
    → Effect P files ((m >>= f) files).1
unfolding ◌>>=◌
bind-Effect m f files g h = continue-Effect (m files).0 f files (m files).1 g λ a. h a (m files).1

make_new-Effect :
    (name : Text) (up : Location) (found : Option Node) (files : Files)
    → files (name ∷ up) ≡ found
    → is_dir files up ≡ true
    → Effect (λ q. q ≡ name ∷ up) files (ignore_existing (make_new name up found files)).1
unfolding make_new ignore_existing is_directory
make_new-Effect name up none files h d = record {
  grows = put-Grows name up directory files d λ e. refl;
  same = put-other (name ∷ up) directory files;
}
make_new-Effect name up (some node) files h d = Effect-refl (λ q. q ≡ name ∷ up) files

make_dir-Effect :
    (name : Text) (up : Location) (files : Files)
    → Effect (λ q. q ≡ name ∷ up) files (ignore_existing (make_dir name up files)).1
unfolding make_dir ignore_existing
make_dir-Effect name up files = elim (Bool-cases (is_dir files up)) [
  | inl e ↦ rw e (make_new-Effect name up (files (name ∷ up)) files refl e)
  | inr e ↦ rw e (Effect-refl (λ q. q ≡ name ∷ up) files)
]

-- `_mkdir` changes only the path and what is above it.
pub mkdir-Effect :
    (p : Location) (files : Files) → Effect (λ q. IsAbove q p) files (mkdir p files).1
unfolding mkdir
mkdir-Effect [] files = Effect-refl (λ q. q ≡ []) files
mkdir-Effect (name ∷ up) files = elim (Bool-cases (is_dir files (name ∷ up))) [
  | inl e ↦ rw e (Effect-refl (λ q. IsAbove q (name ∷ up)) files)
  | inr e ↦ rw e (
      bind-Effect (mkdir up) (λ u made. ignore_existing (make_dir name up made)) files
        (Effect-mono (λ q a. inr a) (mkdir-Effect up files))
        λ u made. Effect-mono (λ q a. inl a) (make_dir-Effect name up made))
]

write_at-Effect :
    (name : Text) (up : Location) (content : Text) (mode : ℕ) (found : Option Node) (files : Files)
    → files (name ∷ up) ≡ found
    → is_dir files up ≡ true
    → Effect (λ q. q ≡ name ∷ up) files (write_at (name ∷ up) content mode found files).1
unfolding write_at is_dir is_directory
write_at-Effect name up content mode none files h d = record {
  grows = put-Grows name up (file content mode) files d λ e. rw (h, is_directory) at e;
  same = put-other (name ∷ up) (file content mode) files;
}
write_at-Effect name up content mode (some directory) files h d =
    Effect-refl (λ q. q ≡ name ∷ up) files
write_at-Effect name up content mode (some (file before was)) files h d = record {
  grows = put-Grows name up (file content mode) files d λ e. rw (h, is_directory) at e;
  same = put-other (name ∷ up) (file content mode) files;
}

pub write_file-Effect :
    (p : Location) (content : Text) (mode : ℕ) (files : Files)
    → Effect (λ q. q ≡ p) files (write_file p content mode files).1
unfolding write_file
write_file-Effect [] content mode files = Effect-refl (λ q. q ≡ []) files
write_file-Effect (name ∷ up) content mode files = elim (Bool-cases (is_dir files up)) [
  | inl e ↦ rw e (write_at-Effect name up content mode (files (name ∷ up)) files refl e)
  | inr e ↦ rw e (Effect-refl (λ q. q ≡ name ∷ up) files)
]
