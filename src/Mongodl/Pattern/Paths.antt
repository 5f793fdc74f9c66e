-- ===== src/Mongodl/Pattern/Paths.antt =====
-- Parsing a path and joining its parts again.
use drivers_evergreen_tools.Common.{
  ℕ, ◌≡◌, refl, ap, ap₂, ◌∙◌, false, Bool-cases, inl, inr, List, [], ◌∷◌, ◌++◌, append_assoc,
  append-nil, arith, All, All-append, ◌==◌,
}
use drivers_evergreen_tools.Common.Text.{Text, text_eq}
use drivers_evergreen_tools.Mongodl.Pattern.{
  split_at, is_void, keep_parts, anchor, parts_of, join, pathjoin,
}

abbrev pub NoSlash : Text → Type 0
NoSlash s = All (λ (c : ℕ). (c == b'/') ≡ false) s

-- A component that a parsed path can have behind its anchor.
unfoldable pub IsPart : Text → Type 0
unfolding is_void
IsPart part = NoSlash part × (is_void part ≡ false)

split_at-last : (word s : Text) → NoSlash s → split_at b'/' word s ≡ (word ++ s) ∷ []
unfolding split_at
split_at-last word [] h = rw (append-nil word) refl
split_at-last word (c ∷ s) h =
    rw (h.0)
      (split_at-last (word ++ c ∷ []) s h.1 ∙ ap (λ t. t ∷ []) (append_assoc word (c ∷ []) s))

split_at-slash :
    (word s rest : Text)
    → NoSlash s
    → split_at b'/' word (s ++ b'/' ∷ rest) ≡ (word ++ s) ∷ split_at b'/' [] rest
unfolding split_at
split_at-slash word [] rest h = rw (append-nil word) refl
split_at-slash word (c ∷ s) rest h = rw (h.0) (
    split_at-slash (word ++ c ∷ []) s rest h.1
    ∙ ap (λ t. t ∷ split_at b'/' [] rest) (append_assoc word (c ∷ []) s))

split_at-join :
    (part : Text) (parts : List Text)
    → All IsPart (part ∷ parts)
    → split_at b'/' [] (join (part ∷ parts)) ≡ part ∷ parts
unfolding join IsPart
split_at-join part [] h = split_at-last [] part h.0.0
split_at-join part (more ∷ parts) h =
    split_at-slash [] part (join (more ∷ parts)) h.0.0
    ∙ ap (λ t. part ∷ t) (split_at-join more parts h.1)

keep_parts-All : (parts : List Text) → All IsPart parts → keep_parts parts ≡ parts
unfolding keep_parts IsPart
keep_parts-All [] h = refl
keep_parts-All (part ∷ parts) h = rw (h.0.1, keep_parts-All parts h.1) refl

anchor-part : (part rest : Text) → IsPart part → anchor (part ++ rest) ≡ []
unfolding anchor IsPart is_void text_eq
anchor-part [] rest h = ground arith
anchor-part (c ∷ []) [] h = ground arith
anchor-part (c ∷ []) (d ∷ []) h = ground arith
anchor-part (c ∷ []) (d ∷ e ∷ rest) h = ground arith
anchor-part (c ∷ d ∷ []) [] h = ground arith
anchor-part (c ∷ d ∷ []) (e ∷ rest) h = ground arith
anchor-part (c ∷ d ∷ e ∷ part) rest h = ground arith

anchor-join : (parts : List Text) → All IsPart parts → anchor (join parts) ≡ []
unfolding join anchor
anchor-join [] h = refl
anchor-join (part ∷ []) h = rw (append-nil part) at (anchor-part part [] h.0)
anchor-join (part ∷ more ∷ parts) h = anchor-part part (b'/' ∷ join (more ∷ parts)) h.0

-- Joining the components of a relative path gives that path.
pub pathjoin-All : (parts : List Text) → All IsPart parts → pathjoin parts ≡ parts
unfolding pathjoin parts_of join anchor split_at keep_parts is_void text_eq
pathjoin-All [] h = refl
pathjoin-All (part ∷ parts) h =
    ap₂ (λ a b. a ++ keep_parts b) (anchor-join (part ∷ parts) h) (split_at-join part parts h)
    ∙ keep_parts-All (part ∷ parts) h

pub split_at-NoSlash : (word s : Text) → NoSlash word → All NoSlash (split_at b'/' word s)
unfolding split_at
split_at-NoSlash word [] h = (h, tt)
split_at-NoSlash word (c ∷ s) h = elim (Bool-cases (c == b'/')) [
  | inl e ↦ rw e (h, split_at-NoSlash [] s tt)
  | inr e ↦ rw e (
      split_at-NoSlash (word ++ c ∷ []) s
        (All-append (λ (d : ℕ). (d == b'/') ≡ false) word (c ∷ []) h (e, tt)))
]

pub keep_parts-IsPart : (parts : List Text) → All NoSlash parts → All IsPart (keep_parts parts)
unfolding keep_parts IsPart
keep_parts-IsPart [] h = tt
keep_parts-IsPart (part ∷ parts) h = elim (Bool-cases (is_void part)) [
  | inl e ↦ rw e (keep_parts-IsPart parts h.1)
  | inr e ↦ rw e ((h.0, e), keep_parts-IsPart parts h.1)
]

-- A parsed path is its anchor and components.
pub parts_of-IsPart : (s : Text) → anchor s ≡ [] → All IsPart (parts_of s)
unfolding parts_of
parts_of-IsPart s h = rw h (keep_parts-IsPart (split_at b'/' [] s) (split_at-NoSlash [] s tt))
