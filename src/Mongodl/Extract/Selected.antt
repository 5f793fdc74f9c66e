-- ===== src/Mongodl/Extract/Selected.antt =====
-- Which members are extracted, and how many.
use drivers_evergreen_tools.Common.{
  ℕ, ◌+◌, ◌≡◌, refl, ap, ◌∙◌, Bool, true, false, Bool-cases, inl, inr, not, ◌&&◌, List, [], ◌∷◌,
  Option, some, none, arith, length, leb, if◌then◌else◌, Result, ok,
}
use drivers_evergreen_tools.Common.Exec.{pure, stop, continue, ◌>>=◌, >>=-succeeds}
use drivers_evergreen_tools.Common.Text.{Text}
use drivers_evergreen_tools.Mongodl.Files.{Files, mkdir, write_file}
use drivers_evergreen_tools.Mongodl.Pattern.{parts_of, test_pattern}
use drivers_evergreen_tools.Mongodl.Pattern.Total.{test_pattern-Returns}
use drivers_evergreen_tools.Mongodl.Extract.{
  Error, Member, Options, pattern_path, parent, opened, on_files, enter_all, place, extract_matched,
  maybe_extract_member, expand_members,
}

abbrev says_yes : Option Bool → Bool
says_yes none = false
says_yes (some found) = found

-- The member has more components than are stripped, and matches the pattern.
pub selected : Options → Member → Bool
selected options member =
    not (leb (length (parts_of member.name)) options.strip)
    && says_yes (test_pattern (parts_of member.name) (pattern_path options.pattern))

pub count : Options → List Member → ℕ
count options [] = 0
count options (member ∷ members) =
    (if selected options member then 1 else 0) + count options members

pattern_path-Returns :
    (path : List Text) (pattern : Option Text)
    → (found : Bool) × (test_pattern path (pattern_path pattern) ≡ some found)
unfolding pattern_path test_pattern
pattern_path-Returns path none = (true, refl)
pattern_path-Returns path (some []) = (true, refl)
pattern_path-Returns path (some (c ∷ s)) = test_pattern-Returns path (c ∷ s)

-- With `test`, nothing is placed.
member_test :
    (options : Options) (member : Member) (files : Files)
    → options.test ≡ true
    → maybe_extract_member options member files
      ≡ (ok (if selected options member then 1 else 0), files)
unfolding maybe_extract_member extract_matched selected pure
member_test options member files h =
    ground (arith, pattern_path-Returns (parts_of member.name) options.pattern)

pure-ok :
    {n m : ℕ} (files : Files) {after : Files}
    → Path (Result Error ℕ × Files) (pure m files) (ok n, after)
    → n ≡ m
unfolding pure
pure-ok files h = ground arith

place-ok :
    (is_dir : Bool) (ups : List (List Text)) (dest : List Text) (mode : ℕ)
    (content : Result Error Text) (files after : Files) (n : ℕ)
    → place is_dir ups dest mode content files ≡ (ok n, after)
    → n ≡ 1
unfolding place
place-ok true ups dest mode content files after n h =
    let (v, s₀, e₀, h₀) = >>=-succeeds (on_files (enter_all ups)) _ files h in
    let (u, s₁, e, g) = >>=-succeeds (on_files (mkdir dest)) _ s₀ h₀ in pure-ok s₁ g
place-ok false ups dest mode content files after n h =
    let (infile, s₁, e₁, h₁) = >>=-succeeds (opened content) _ files h in
    let (w, s, e, k) = >>=-succeeds (on_files (enter_all ups)) _ s₁ h₁ in
    let (u, s₂, e₂, h₂) = >>=-succeeds (on_files (mkdir (parent dest))) _ s k in
    let (v, s₃, e₃, h₃) = >>=-succeeds (on_files (write_file dest infile mode)) _ s₂ h₂ in
    pure-ok s₃ h₃

matched_count :
    (options : Options) (member : Member) (t : Option Bool) (files after : Files) (n : ℕ)
    → extract_matched options member t files ≡ (ok n, after)
    → n ≡ (if says_yes t then 1 else 0)
unfolding extract_matched stop
matched_count options member none files after n h = ground arith
matched_count options member (some false) files after n h = pure-ok files h
matched_count options member (some true) files after n h = elim (Bool-cases options.test) [
  | inl e ↦ pure-ok files (rw e at h)
  | inr e ↦ place-ok member.is_dir _ _ member.mode member.content files after n (rw e at h)
]

member_count :
    (options : Options) (member : Member) (files after : Files) (n : ℕ)
    → maybe_extract_member options member files ≡ (ok n, after)
    → n ≡ (if selected options member then 1 else 0)
unfolding maybe_extract_member selected
member_count options member files after n h =
    elim (Bool-cases (leb (length (parts_of member.name)) options.strip)) [
      | inl l ↦ rw l (pure-ok files (rw l at h))
      | inr l ↦ rw l (matched_count options member _ files after n (rw l at h))
    ]

-- With `--test` the extraction succeeds, counts the selected members, and changes no file.
pub expand_members-test :
    (n : ℕ) (options : Options) (members : List Member) (files : Files)
    → options.test ≡ true
    → expand_members n options members files ≡ (ok (n + count options members), files)
unfolding expand_members count ◌>>=◌ continue pure
expand_members-test n options [] files h = ap (λ k. (ok k, files)) (omega arith)
expand_members-test n options (member ∷ members) files h = rw (member_test options member files h) (
    expand_members-test (n + (if selected options member then 1 else 0)) options members files h
    ∙ ap (λ k. (ok k, files)) (omega arith))

-- An extraction that succeeds has counted the selected members, whatever it wrote: `--test` tells
-- its number beforehand.
pub expand_members-count :
    (n : ℕ) (options : Options) (members : List Member) (files after : Files) (total : ℕ)
    → expand_members n options members files ≡ (ok total, after)
    → total ≡ n + count options members
unfolding expand_members count
expand_members-count n options [] files after total h = omega (arith, pure-ok files h)
expand_members-count n options (member ∷ members) files after total h =
    let (k, s₁, e, g) = >>=-succeeds (maybe_extract_member options member) _ files h in
    omega (
      arith,
      member_count options member files s₁ k e,
      expand_members-count (n + k) options members s₁ after total g,
    )
