-- ===== src/Mongodl/Files/Tree.antt =====
-- Every node has its directory, and what the file operations leave as it was.
use drivers_evergreen_tools.Common.{
  ◌≡◌, refl, ap, subst, true, Bool-cases, ◌⊎◌, ◌↔◌, inl, inr, [], ◌∷◌, some, arith,
}
use drivers_evergreen_tools.Common.Text.{Text, text_eq_iff}
use drivers_evergreen_tools.Mongodl.Files.{
  Location, Node, Files, location_eq, put, is_directory, is_dir,
}

pub location_eq_iff : (p q : Location) → (location_eq p q ≡ true) ↔ (p ≡ q)
unfolding location_eq
location_eq_iff [] [] = (λ h. refl, λ h. refl)
location_eq_iff [] (b ∷ q) = ground arith
location_eq_iff (a ∷ p) [] = ground arith
location_eq_iff (a ∷ p) (b ∷ q) = ground (arith, text_eq_iff a b, location_eq_iff p q)

pub put-same : (p : Location) (node : Node) (files : Files) → put p node files p ≡ some node
unfolding put
put-same p node files = rw ((location_eq_iff p p).1 refl) refl

pub put-other :
    (p : Location) (node : Node) (files : Files) (q : Location)
    → (q ≡ p → ⊥)
    → put p node files q ≡ files q
unfolding put
put-other p node files q h = ground (arith, location_eq_iff p q)

-- The location stands on the way to `p`, or is `p`.
abbrev pub IsAbove : Location → Location → Type 0
IsAbove q [] = q ≡ []
IsAbove q (name ∷ up) = (q ≡ name ∷ up) ⊎ IsAbove q up

-- The locations outside `P` hold what they held.
abbrev pub Same : (Location → Type 0) → Files → Files → Type 0
Same P before after = (q : Location) → (P q → ⊥) → after q ≡ before q

-- Every node stands in a directory.
pub IsTree : Files → Type 0
IsTree files =
    (name : Text) (up : Location) (node : Node)
    → files (name ∷ up) ≡ some node
    → is_dir files up ≡ true

-- The directories stay, and the tree stays a tree.
pub record Grows (before after : Files) : Type 0 where
  pub dirs : (q : Location) → is_dir before q ≡ true → is_dir after q ≡ true
  pub tree : IsTree before → IsTree after

pub Grows-refl : (files : Files) → Grows files files
Grows-refl files = record { dirs = λ q h. h; tree = λ h. h }

pub Grows-trans : {a b c : Files} → Grows a b → Grows b c → Grows a c
Grows-trans g h = record { dirs = λ q d. h.dirs q (g.dirs q d); tree = λ t. h.tree (g.tree t) }

-- A location that holds no directory has nothing below it.
put_dirs :
    (p : Location) (node : Node) (files : Files)
    → (is_dir files p ≡ true → is_directory (some node) ≡ true)
    → (q : Location) → is_dir files q ≡ true
    → is_dir (put p node files) q ≡ true
unfolding is_dir put
put_dirs p node files h [] d = refl
put_dirs p node files h (name ∷ up) d = elim (Bool-cases (location_eq p (name ∷ up))) [
  | inl e ↦ rw e (h (rw ((location_eq_iff p (name ∷ up)).0 e) d))
  | inr e ↦ rw e d
]

pub put-Grows :
    (name : Text) (up : Location) (node : Node) (files : Files)
    → is_dir files up ≡ true
    → (is_dir files (name ∷ up) ≡ true → is_directory (some node) ≡ true)
    → Grows files (put (name ∷ up) node files)
unfolding IsTree put
put-Grows name up node files hu hd = record {
  dirs = put_dirs (name ∷ up) node files hd;
  tree = λ t n u found h. elim (Bool-cases (location_eq (name ∷ up) (n ∷ u))) [
    | inl e ↦ put_dirs (name ∷ up) node files hd u (
        subst (λ v. is_dir files v ≡ true)
          (ap (λ l. elim l [ [] ↦ up | m ∷ v ↦ v ]) ((location_eq_iff (name ∷ up) (n ∷ u)).0 e)) hu)
    | inr e ↦ put_dirs (name ∷ up) node files hd u (t n u found (rw e at h))
  ];
}
