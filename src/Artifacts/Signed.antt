-- ===== src/Artifacts/Signed.antt =====
-- What a signature needs to pass, whatever gpg prints.
use drivers_evergreen_tools.Common.{
  ◌≡◌, ◌⊎◌, inl, inr, Bool-cases, Some, sym, ◌∙◌, Bool, true, false, ◌&&◌, ◌||◌, List, [], ◌∷◌,
  ◌++◌, any, ◌==◌, arith, ok,
}
use drivers_evergreen_tools.Common.Text.{Text, codes, text_eq, text_eq_iff}
use drivers_evergreen_tools.Artifacts.{
  Gpg, is_pinned, pinned_fields, is_expiry, by_keyword, status_line, status_loop, status_lines,
  decide, verify_gpg_signature,
}

-- A line of gpg that reports an expired or revoked key, or an expired signature.
unfoldable pub reports_expiry : List Text → Bool
reports_expiry (tag ∷ word ∷ third ∷ fields) = text_eq tag (codes "[GNUPG:]") && is_expiry word
reports_expiry _ = false

unfoldable pub AllPinned : List Text → Type 0
AllPinned [] = Unit
AllPinned (f ∷ fs) = (is_pinned f ≡ true) × AllPinned fs

pinned_fields-AllPinned : (fs : List Text) → AllPinned (pinned_fields fs)
unfolding pinned_fields AllPinned
pinned_fields-AllPinned [] = tt
pinned_fields-AllPinned (f ∷ fs) = let rec = pinned_fields-AllPinned fs in ground arith

append-AllPinned : (fs gs : List Text) → AllPinned fs → AllPinned gs → AllPinned (fs ++ gs)
unfolding AllPinned
append-AllPinned [] gs hf hg = hg
append-AllPinned (f ∷ fs) gs (h, hf) hg = (h, append-AllPinned fs gs hf hg)

valid-not_expiry : (word : Text) → text_eq word (codes "VALIDSIG") ≡ true → is_expiry word ≡ false
unfolding is_expiry text_eq
valid-not_expiry word h = rw ((text_eq_iff word (codes "VALIDSIG")).0 h)

by_keyword-AllPinned :
    (word : Text) (fields : List Text) (state : List Text × Bool)
    → AllPinned (state.0)
    → AllPinned ((by_keyword word fields state).0)
unfolding by_keyword
by_keyword-AllPinned word fields (fs, bad) h =
    let more = append-AllPinned fs (pinned_fields fields) h (pinned_fields-AllPinned fields) in
    ground arith

by_keyword-expiry :
    (word : Text) (fields : List Text) (state : List Text × Bool)
    → (by_keyword word fields state).1 ≡ (state.1 || is_expiry word)
unfolding by_keyword
by_keyword-expiry word fields (fs, true) = ground arith
by_keyword-expiry word fields (fs, false) = let h = valid-not_expiry word in ground arith

status_line-AllPinned :
    (line : List Text) (state : List Text × Bool)
    → AllPinned (state.0)
    → AllPinned ((status_line line state).0)
unfolding status_line
status_line-AllPinned (tag ∷ word ∷ third ∷ fields) state h =
    let more = by_keyword-AllPinned word (tag ∷ word ∷ third ∷ fields) state h in ground arith
status_line-AllPinned (tag ∷ word ∷ []) state h = h
status_line-AllPinned (tag ∷ []) state h = h
status_line-AllPinned [] state h = h

status_line-expiry :
    (line : List Text) (state : List Text × Bool)
    → (status_line line state).1 ≡ (state.1 || reports_expiry line)
unfolding status_line reports_expiry
status_line-expiry (tag ∷ word ∷ third ∷ fields) state =
    let e = by_keyword-expiry word (tag ∷ word ∷ third ∷ fields) state in ground arith
status_line-expiry (tag ∷ word ∷ []) state = ground arith
status_line-expiry (tag ∷ []) state = ground arith
status_line-expiry [] state = ground arith

status_loop-AllPinned :
    (lines : List (List Text)) (state : List Text × Bool)
    → AllPinned (state.0)
    → AllPinned ((status_loop lines state).0)
unfolding status_loop
status_loop-AllPinned [] state h = h
status_loop-AllPinned (line ∷ lines) state h =
    status_loop-AllPinned lines (status_line line state) (status_line-AllPinned line state h)

status_loop-expiry :
    (lines : List (List Text)) (state : List Text × Bool)
    → (status_loop lines state).1 ≡ (state.1 || any reports_expiry lines)
unfolding status_loop
status_loop-expiry [] state = ground arith
status_loop-expiry (line ∷ lines) state =
    let e = status_loop-expiry lines (status_line line state) in
    let f = status_line-expiry line state in ground arith

-- A line of gpg by which the signature is valid, with a field that is this fingerprint.
unfoldable pub ReportsValid : Text → List Text → Type 0
ReportsValid fingerprint (tag ∷ word ∷ third ∷ fields) =
    (tag ≡ codes "[GNUPG:]")
    × (word ≡ codes "VALIDSIG")
    × Some (λ field. field ≡ fingerprint) (tag ∷ word ∷ third ∷ fields)
ReportsValid fingerprint _ = ⊥

pinned_fields-Some :
    (p : Text) (fs : List Text) → Some (λ f. f ≡ p) (pinned_fields fs) → Some (λ f. f ≡ p) fs
unfolding pinned_fields
pinned_fields-Some p [] h = elim h [ ]
pinned_fields-Some p (f ∷ fs) h = elim (Bool-cases (is_pinned f)) [
  | inl e ↦ (elim (rw e at h) as (λ _. Some (λ g. g ≡ p) (f ∷ fs)) [
    | inl k ↦ inl k
    | inr k ↦ inr (pinned_fields-Some p fs k)
  ])
  | inr e ↦ inr (pinned_fields-Some p fs (rw e at h))
]

Some-append :
    (p : Text) (fs gs : List Text)
    → Some (λ f. f ≡ p) (fs ++ gs)
    → Some (λ f. f ≡ p) fs ⊎ Some (λ f. f ≡ p) gs
Some-append p [] gs h = inr h
Some-append p (f ∷ fs) gs (inl e) = inl (inl e)
Some-append p (f ∷ fs) gs (inr h) = elim (Some-append p fs gs h) [
  | inl k ↦ inl (inr k)
  | inr k ↦ inr k
]

status_line-Some :
    (p : Text) (line : List Text) (state : List Text × Bool)
    → Some (λ f. f ≡ p) (status_line line state).0
    → Some (λ f. f ≡ p) state.0 ⊎ ReportsValid p line
unfolding status_line by_keyword ReportsValid
status_line-Some p (tag ∷ word ∷ third ∷ fields) (fs, bad) h =
    elim (Bool-cases (text_eq tag (codes "[GNUPG:]"))) [
      | inr e ↦ inl (rw e at h)
      | inl e ↦ (elim (Bool-cases (text_eq word (codes "VALIDSIG"))) [
        | inl v ↦
            (elim (Some-append p fs (pinned_fields (tag ∷ word ∷ third ∷ fields))
              (rw (e, v) at h)) [
                | inl k ↦ inl k
                | inr k ↦ inr (
                  (text_eq_iff tag (codes "[GNUPG:]")).0 e,
                  (text_eq_iff word (codes "VALIDSIG")).0 v,
                  pinned_fields-Some p (tag ∷ word ∷ third ∷ fields) k,
                )
              ])
        | inr v ↦ (elim (Bool-cases (is_expiry word)) [
          | inl x ↦ inl (rw (e, v, x) at h)
          | inr x ↦ inl (rw (e, v, x) at h)
        ])
      ])
    ]
status_line-Some p (tag ∷ word ∷ []) state h = inl h
status_line-Some p (tag ∷ []) state h = inl h
status_line-Some p [] state h = inl h

status_loop-Some :
    (p : Text) (lines : List (List Text)) (state : List Text × Bool)
    → Some (λ f. f ≡ p) (status_loop lines state).0
    → Some (λ f. f ≡ p) state.0 ⊎ Some (ReportsValid p) lines
unfolding status_loop
status_loop-Some p [] state h = inl h
status_loop-Some p (line ∷ lines) state h =
    elim (status_loop-Some p lines (status_line line state) h) [
      | inr k ↦ inr (inr k)
      | inl k ↦ (elim (status_line-Some p line state k) [ inl m ↦ inl m | inr v ↦ inr (inl v) ])
    ]

decide-first :
    (proc : Gpg) (state : List Text × Bool) (fingerprint : Text)
    → decide proc state ≡ ok fingerprint
    → Some (λ f. f ≡ fingerprint) state.0
unfolding decide
decide-first proc ([], bad) fingerprint e = absurd (ground arith)
decide-first proc (f ∷ fs, bad) fingerprint e = inl (ground arith)

decide-ok :
    (proc : Gpg) (state : List Text × Bool) (fingerprint : Text)
    → AllPinned (state.0)
    → decide proc state ≡ ok fingerprint
    → ((proc.returncode == 0) ≡ true) × (state.1 ≡ false) × (is_pinned fingerprint ≡ true)
unfolding decide AllPinned
decide-ok proc ([], bad) fingerprint h e = ground arith
decide-ok proc (f ∷ fs, bad) fingerprint h e = ground arith

-- Where `_verify_gpg_signature` returns a fingerprint, gpg exited with 0, no line of its output
-- reports an expired signature or an expired or revoked key, the fingerprint is pinned, and it is a
-- field of a line of the output that reports a valid signature.
pub verify_gpg_signature-ok :
    (proc : Gpg) (fingerprint : Text)
    → verify_gpg_signature proc ≡ ok fingerprint
    → ((proc.returncode == 0) ≡ true)
      × (any reports_expiry (status_lines proc.stdout) ≡ false)
      × (is_pinned fingerprint ≡ true)
      × Some (ReportsValid fingerprint) (status_lines proc.stdout)
unfolding verify_gpg_signature AllPinned
verify_gpg_signature-ok proc fingerprint h =
    let e = status_loop-expiry (status_lines proc.stdout) ([], false) in
    let r =
      decide-ok proc (status_loop (status_lines proc.stdout) ([], false)) fingerprint
        (status_loop-AllPinned (status_lines proc.stdout) ([], false) tt) h in
    let first =
      decide-first proc (status_loop (status_lines proc.stdout) ([], false)) fingerprint h in
    let valid : Some (ReportsValid fingerprint) (status_lines proc.stdout) =
      elim (status_loop-Some fingerprint (status_lines proc.stdout) ([], false) first) [
        | inl k ↦ elim k [ ]
        | inr k ↦ k
      ] in
    (r.0, sym e ∙ r.1, r.2, valid)
