-- ===== src/Orchestration/Json/Refill.antt =====
-- What `refill` changes: the members, and nothing else.
use drivers_evergreen_tools.Common.{
  ℕ, zero, suc, ◌+◌, ◌≤◌, ◌≡◌, refl, sym, ap, ◌∙◌, inl, inr, arith, Bool, true, Bool-cases, List,
  [], ◌∷◌, ◌++◌, append-nil, append_assoc, length, take, drop, All, All-append, length-append,
  length-drop,
}
use drivers_evergreen_tools.Common.Text.{Text, codes, text_eq}
use drivers_evergreen_tools.Orchestration.Json.{
  Value, null, flag, number, text, arr, obj, Items, nil, cons, Fields, end, field, get, has,
  is_member, members, members_items, members_fields, refill, refill_items, refill_fields,
}

abbrev pub IsMember : Fields → Type 0
IsMember fs = is_member fs ≡ true

-- Filling in as many members as there are leaves the others over, puts them where they are read
-- again, and is undone by filling in the old ones.
abbrev Law : {X : Type 0} → (X → List Fields) → (X → List Fields → X × List Fields) → X → Type 0
Law read again x =
    (ms : List Fields)
    → length (read x) ≤ length ms
    → All IsMember ms
    → ((again x ms).1 ≡ drop (length (read x)) ms)
      × (read (again x ms).0 ≡ take (length (read x)) ms)
      × ((rest : List Fields) → again (again x ms).0 (read x ++ rest) ≡ (x, rest))

drop-nil : (n : ℕ) → drop {A = Fields} n [] ≡ []
drop-nil zero = refl
drop-nil (suc n) = refl

take-nil : (n : ℕ) → take {A = Fields} n [] ≡ []
take-nil zero = refl
take-nil (suc n) = refl

drop-add : (a b : ℕ) (ms : List Fields) → drop (a + b) ms ≡ drop b (drop a ms)
drop-add zero b ms = ap (λ (n : ℕ). drop n ms) (omega arith)
drop-add (suc a) b [] = drop-nil (suc a + b) ∙ sym (drop-nil b)
drop-add (suc a) b (m ∷ ms) =
    let e : suc a + b ≡ suc (a + b) = omega arith in rw e (drop-add a b ms)

take-add : (a b : ℕ) (ms : List Fields) → take (a + b) ms ≡ take a ms ++ take b (drop a ms)
take-add zero b ms = ap (λ (n : ℕ). take n ms) (omega arith)
take-add (suc a) b [] = take-nil (suc a + b) ∙ sym (take-nil b)
take-add (suc a) b (m ∷ ms) =
    let e : suc a + b ≡ suc (a + b) = omega arith in
    rw e (ap (λ (l : List Fields). m ∷ l) (take-add a b ms))

All-drop : (n : ℕ) (ms : List Fields) → All IsMember ms → All IsMember (drop n ms)
All-drop zero ms h = h
All-drop (suc n) [] h = h
All-drop (suc n) (m ∷ ms) h = All-drop n ms h.1

take_all : (ms : List Fields) → take (length ms) ms ≡ ms
take_all [] = refl
take_all (m ∷ ms) = ap (λ (l : List Fields). m ∷ l) (take_all ms)

-- Two parts behind each other.
pair-Law :
    {X Y : Type 0} (read : X → List Fields) (again : X → List Fields → X × List Fields) (x : X)
    (read' : Y → List Fields) (again' : Y → List Fields → Y × List Fields) (y : Y)
    → Law read again x
    → Law read' again' y
    → (ms : List Fields) → length (read x ++ read' y) ≤ length ms
    → All IsMember ms
    → let second = again' y (again x ms).1 in
      (second.1 ≡ drop (length (read x ++ read' y)) ms)
      × (read (again x ms).0 ++ read' second.0 ≡ take (length (read x ++ read' y)) ms)
      × ((rest : List Fields)
          → again (again x ms).0 ((read x ++ read' y) ++ rest) ≡ (x, read' y ++ rest))
      × ((rest : List Fields) → again' second.0 (read' y ++ rest) ≡ (y, rest))
pair-Law read again x read' again' y p q ms h all =
    let first = p ms (omega (arith, length-append (read x) (read' y))) all in
    let behind = drop (length (read x)) ms in
    let second =
      q behind (omega (arith, length-append (read x) (read' y), length-drop (length (read x)) ms))
        (All-drop (length (read x)) ms all) in
    let size = length-append (read x) (read' y) in
    (
      rw (first.0, size, drop-add (length (read x)) (length (read' y)) ms) second.0,
      rw (first.0, first.1, size, take-add (length (read x)) (length (read' y)) ms, second.1),
      λ rest. rw (append_assoc (read x) (read' y) rest) (first.2 (read' y ++ rest)),
      λ rest. rw first.0 (second.2 rest),
    )

module _ (skip : Text → Bool) where
  has-refill :
      (key : Text) (fs : Fields) (ms : List Fields)
      → has key (refill_fields skip fs ms).0 ≡ has key fs
  unfolding get refill
  has-refill key end ms = refl
  has-refill key (field k v fs) ms = elim (Bool-cases (text_eq k key)) [
    | inl e ↦ ground arith
    | inr e ↦ ground (arith, has-refill key fs ms, has-refill key fs (refill skip v ms).1)
  ]

  member-Law : (fs : Fields) → IsMember fs → Law (members skip) (refill skip) (obj fs)
  unfolding members refill
  member-Law fs e [] h all = let none_left : 1 ≤ 0 = rw e at h in elim none_left [ ]
  member-Law fs e (m ∷ ms) h all = (ground arith, ground arith, λ rest. ground arith)

  mutual
    unfolding members refill

    value-Law : (v : Value) → Law (members skip) (refill skip) v
    value-Law null ms h all = (refl, refl, λ rest. refl)
    value-Law (flag b) ms h all = (refl, refl, λ rest. refl)
    value-Law (number t) ms h all = (refl, refl, λ rest. refl)
    value-Law (text t) ms h all = (refl, refl, λ rest. refl)
    value-Law (arr xs) ms h all =
        let (a, b, c) = items-Law xs ms h all in (a, b, λ rest. ground (arith, c rest))
    value-Law (obj fs) ms h all = elim (Bool-cases (is_member fs)) [
      | inl e ↦ member-Law fs e ms h all
      | inr e ↦
          let (a, b, c) = fields-Law fs ms (rw e at h) all in
          let still = has-refill (codes "ipv6") fs ms in
          rw e (a, rw (still, e) b, λ rest. rw (still, e) (ground (arith, c rest)))
    ]

    items-Law : (xs : Items) → Law (members_items skip) (refill_items skip) xs
    items-Law nil ms h all = (refl, refl, λ rest. refl)
    items-Law (cons v xs) ms h all =
        let (a, b, c, d) =
          pair-Law (members skip) (refill skip) v (members_items skip) (refill_items skip) xs
            (value-Law v) (items-Law xs) ms h all in
        (a, b, λ rest. ground (arith, c rest, d rest))

    fields-Law : (fs : Fields) → Law (members_fields skip) (refill_fields skip) fs
    fields-Law end ms h all = (refl, refl, λ rest. refl)
    fields-Law (field k v fs) ms h all = elim (Bool-cases (skip k)) [
      | inl e ↦
          let (a, b, c) = fields-Law fs ms (rw e at h) all in
          rw e (a, rw e b, λ rest. rw e (ground (arith, c rest)))
      | inr e ↦
          let (a, b, c, d) =
            pair-Law (members skip) (refill skip) v (members_fields skip) (refill_fields skip) fs
              (value-Law v) (fields-Law fs) ms (rw e at h) all in
          rw e (a, rw e b, λ rest. rw e (ground (arith, c rest, d rest)))
    ]

  -- As many members, put where the old ones were: they are read there, and putting the old ones back
  -- gives the old value, so that nothing else is changed.
  pub refill_lem :
      (v : Value) (ms : List Fields)
      → length ms ≡ length (members skip v)
      → All IsMember ms
      → (members skip (refill skip v ms).0 ≡ ms)
        × ((refill skip (refill skip v ms).0 (members skip v)).0 ≡ v)
  refill_lem v ms e all =
      let (a, b, c) = value-Law v ms (omega arith) all in
      (
        rw b (rw (← e) (take_all ms)),
        let back : refill skip (refill skip v ms).0 (members skip v ++ []) ≡ (v, []) = c [] in
            ap (λ (p : Value × List Fields). p.0) (rw append-nil at back),
      )

  mutual
    unfolding members

    members-IsMember : (v : Value) → All IsMember (members skip v)
    members-IsMember null = tt
    members-IsMember (flag b) = tt
    members-IsMember (number t) = tt
    members-IsMember (text t) = tt
    members-IsMember (arr xs) = items-IsMember xs
    members-IsMember (obj fs) = elim (Bool-cases (is_member fs)) [
      | inl e ↦ rw e (e, tt)
      | inr e ↦ rw e (fields-IsMember fs)
    ]

    items-IsMember : (xs : Items) → All IsMember (members_items skip xs)
    items-IsMember nil = tt
    items-IsMember (cons v xs) =
        All-append IsMember (members skip v) (members_items skip xs) (members-IsMember v)
          (items-IsMember xs)

    fields-IsMember : (fs : Fields) → All IsMember (members_fields skip fs)
    fields-IsMember end = tt
    fields-IsMember (field k v fs) =
        let both =
          All-append IsMember (members skip v) (members_fields skip fs) (members-IsMember v)
            (fields-IsMember fs) in
        elim (Bool-cases (skip k)) [ inl e ↦ rw e (fields-IsMember fs) | inr e ↦ rw e both ]

  pub members_lem : (v : Value) → All IsMember (members skip v)
  members_lem v = members-IsMember v
