-- ===== src/Mongodl/Extract/Frame.antt =====
-- Where an extraction writes.
use drivers_evergreen_tools.Common.{
  ℕ, zero, suc, ◌+◌, ◌≡◌, refl, sym, subst, Bool, true, false, Bool-cases, inl, inr, ◌⊎◌, List, [],
  ◌∷◌, drop, All, Option, some, none, arith, length, leb, Result, ok, raise,
}
use drivers_evergreen_tools.Common.Exec.{Exec, pure, stop}
use drivers_evergreen_tools.Common.Text.{Text, codes, text_eq}
use drivers_evergreen_tools.Mongodl.Files.{Location, Files, OsError, mkdir, write_file}
use drivers_evergreen_tools.Mongodl.Files.Tree.{IsAbove}
use drivers_evergreen_tools.Mongodl.Files.Mkdir.{
  Effect, Effect-refl, Effect-mono, bind-Effect, mkdir-Effect, write_file-Effect,
}
use drivers_evergreen_tools.Mongodl.Pattern.{is_void, parts_of, anchor, pathjoin}
use drivers_evergreen_tools.Mongodl.Pattern.Paths.{IsPart, pathjoin-All, parts_of-IsPart}
use drivers_evergreen_tools.Mongodl.Extract.{
  Error, Member, Options, is_anchor, is_up, descend, detours, detours_of, enter_all, destination,
  lift_os, on_files, parent, opened, place, extract_matched, maybe_extract_member, expand_members,
}

-- No component leads up.
abbrev IsDownward : List Text → Type 0
IsDownward parts = All (λ (part : Text). text_eq part (codes "..") ≡ false) parts

-- A name that does not lead out of the directory it is extracted into.
pub record StaysInside (member : Member) : Type 0 where
  pub relative : anchor member.name ≡ []
  pub downward : IsDownward (parts_of member.name)

-- On the way to `out`, or below it.
abbrev pub IsAround : Location → Location → Type 0
IsAround out q = IsAbove q out ⊎ IsAbove out q

IsAbove-refl : (p : Location) → IsAbove p p
IsAbove-refl [] = refl
IsAbove-refl (name ∷ up) = inl refl

descend-IsAbove :
    (parts : List Text) (out at : Location)
    → IsDownward parts
    → IsAbove out at
    → IsAbove out (descend at parts)
unfolding descend is_up
descend-IsAbove [] out at d h = h
descend-IsAbove (part ∷ parts) out at d h =
    rw (d.0) (descend-IsAbove parts out (part ∷ at) d.1 (inr h))

-- Nothing is entered on the way but what is on the way.
detours-downward : (parts : List Text) (at : Location) → IsDownward parts → detours at parts ≡ []
unfolding detours is_up
detours-downward [] at d = refl
detours-downward (part ∷ parts) at d = rw (d.0) (detours-downward parts (part ∷ at) d.1)

-- Two locations above a third stand on one way.
IsAbove-linear : (p q r : Location) → IsAbove q p → IsAbove r p → IsAround r q
IsAbove-linear [] q r hq hr = inl (subst (IsAbove q) (sym hr) hq)
IsAbove-linear (name ∷ up) q r (inl e) hr = inr (subst (IsAbove r) (sym e) hr)
IsAbove-linear (name ∷ up) q r (inr hq) (inl e) = inl (subst (IsAbove q) (sym e) (inr hq))
IsAbove-linear (name ∷ up) q r (inr hq) (inr hr) = IsAbove-linear up q r hq hr

is_anchor-IsPart : (part : Text) → IsPart part → is_anchor part ≡ false
unfolding is_anchor IsPart text_eq is_void
is_anchor-IsPart [] h = ground arith
is_anchor-IsPart (c ∷ part) h = ground arith

destination-IsAbove :
    (out : Location) (parts : List Text)
    → All IsPart parts
    → IsDownward parts
    → IsAbove out (destination out parts)
unfolding destination
destination-IsAbove out [] h d = IsAbove-refl out
destination-IsAbove out (part ∷ parts) h d =
    rw (is_anchor-IsPart part h.0) (descend-IsAbove (part ∷ parts) out out d (IsAbove-refl out))

detours_of-downward :
    (out : Location) (parts : List Text)
    → All IsPart parts
    → IsDownward parts
    → detours_of out parts ≡ []
unfolding detours_of
detours_of-downward out [] h d = refl
detours_of-downward out (part ∷ parts) h d =
    rw (is_anchor-IsPart part h.0) (detours-downward (part ∷ parts) out d)

lift_os-files : {A : Type 0} (r : Result OsError A) (files : Files) → (lift_os (r, files)).1 ≡ files
unfolding lift_os
lift_os-files (ok a) files = refl
lift_os-files (raise e) files = refl

on_files-Effect :
    {A : Type 0} {P : Location → Type 0} (m : Exec Files OsError A) (files : Files)
    → Effect P files (m files).1
    → Effect P files (on_files m files).1
unfolding on_files
on_files-Effect {P = P} m files h =
    subst (Effect P files) (sym (lift_os-files (m files).0 (m files).1)) h

opened-Effect :
    {P : Location → Type 0} (content : Result Error Text) (files : Files)
    → Effect P files (opened content files).1
unfolding opened
opened-Effect {P = P} content files = Effect-refl P files

pure-Effect :
    {P : Location → Type 0} {A : Type 0} (a : A) (files : Files)
    → Effect P files (pure {E = Error} a files).1
unfolding pure
pure-Effect {P = P} a files = Effect-refl P files

straight-Effect :
    {P : Location → Type 0} (files : Files) → Effect P files (on_files (enter_all []) files).1
unfolding on_files lift_os enter_all pure
straight-Effect {P = P} files = Effect-refl P files

parent-IsAbove : (p q : Location) → IsAbove q (parent p) → IsAbove q p
unfolding parent
parent-IsAbove [] q h = h
parent-IsAbove (name ∷ up) q h = inr h

place-Effect :
    (is_dir : Bool) (dest : Location) (mode : ℕ) (content : Result Error Text) (files : Files)
    → Effect (λ q. IsAbove q dest) files (place is_dir [] dest mode content files).1
unfolding place
place-Effect true dest mode content files =
    bind-Effect (on_files (enter_all [])) _ files (straight-Effect files) λ _ s₀.
      bind-Effect (on_files (mkdir dest)) _ s₀
        (on_files-Effect (mkdir dest) s₀ (mkdir-Effect dest s₀)) (λ _ s. pure-Effect 1 s)
place-Effect false dest mode content files =
    bind-Effect (opened content) _ files (opened-Effect content files) λ infile s₀.
      bind-Effect (on_files (enter_all [])) _ s₀ (straight-Effect s₀) λ _ s₁.
        bind-Effect (on_files (mkdir (parent dest))) _ s₁
          (on_files-Effect (mkdir (parent dest)) s₁
            (Effect-mono (λ q. parent-IsAbove dest q) (mkdir-Effect (parent dest) s₁)))
          λ _ s₂.
            bind-Effect (on_files (write_file dest infile mode)) _ s₂
              (on_files-Effect (write_file dest infile mode) s₂ (
                Effect-mono (λ q e. subst (λ p. IsAbove p dest) (sym e) (IsAbove-refl dest))
                  (write_file-Effect dest infile mode s₂)))
              λ _ s. pure-Effect 1 s

drop-All : (P : Text → Type 0) (n : ℕ) (parts : List Text) → All P parts → All P (drop n parts)
drop-All P zero parts h = h
drop-All P (suc n) [] h = h
drop-All P (suc n) (part ∷ parts) h = drop-All P n parts h.1

matched-Effect :
    (options : Options) (member : Member) (t : Option Bool) (files : Files)
    → StaysInside member
    → Effect (IsAround options.out) files (extract_matched options member t files).1
unfolding extract_matched stop
matched-Effect options member none files h = Effect-refl (IsAround options.out) files
matched-Effect options member (some false) files h = pure-Effect 0 files
matched-Effect options member (some true) files h =
    let parts = drop options.strip (parts_of member.name) in
    let inside =
      drop-All IsPart options.strip (parts_of member.name)
        (parts_of-IsPart member.name h.relative) in
    let downward =
      drop-All (λ part. text_eq part (codes "..") ≡ false) options.strip (parts_of member.name)
        h.downward in
    let dest = destination options.out (pathjoin parts) in
    let below : IsAbove options.out dest =
      rw (pathjoin-All parts inside) (destination-IsAbove options.out parts inside downward) in
    let straight : detours_of options.out (pathjoin parts) ≡ [] =
      rw (pathjoin-All parts inside) (detours_of-downward options.out parts inside downward) in
    elim (Bool-cases options.test) [
      | inl e ↦ rw e (pure-Effect 1 files)
      | inr e ↦
          rw (e, straight)
            (Effect-mono (λ q a. IsAbove-linear dest q options.out a below)
              (place-Effect member.is_dir dest member.mode member.content files))
    ]

member-Effect :
    (options : Options) (member : Member) (files : Files)
    → StaysInside member
    → Effect (IsAround options.out) files (maybe_extract_member options member files).1
unfolding maybe_extract_member
member-Effect options member files h =
    elim (Bool-cases (leb (length (parts_of member.name)) options.strip)) [
      | inl l ↦ rw l (pure-Effect 0 files)
      | inr l ↦ rw l (matched-Effect options member _ files h)
    ]

-- Members whose names are relative and have no component `..` are extracted on the way to the output
-- directory and below it: every other location is as it was, whether the extraction succeeds or
-- stops. The directories stay, and every node still stands in a directory if it did before.
pub expand_members-Effect :
    (n : ℕ) (options : Options) (members : List Member) (files : Files)
    → All StaysInside members
    → Effect (IsAround options.out) files (expand_members n options members files).1
unfolding expand_members
expand_members-Effect n options [] files h = pure-Effect n files
expand_members-Effect n options (member ∷ members) files h =
    bind-Effect (maybe_extract_member options member) _ files
      (member-Effect options member files h.0)
      λ k mid. expand_members-Effect (n + k) options members mid h.1
