-- ===== src/Socks/Handler/Reads.antt =====
-- What the reads and the checks of `Socks5Handler.handle` take from the stream where they succeed.
use drivers_evergreen_tools.Common.{
  ℕ, ◌≤◌, ◌≡◌, refl, sym, ◌∙◌, inl, inr, Bool, true, false, List, [], ◌∷◌, ◌++◌, Option, none, some,
  some-injective, arith, leb, leb→le, length-take_of_le, length, take, take-append-drop, Bool-cases,
  ok,
}
use drivers_evergreen_tools.Common.Text.{Text}
use drivers_evergreen_tools.Common.Text.Utf8.{decode}
use drivers_evergreen_tools.Socks.Stream.{
  Stream, Ending, closed, broken, bytes, recv, read_counted, read_exact,
}
use drivers_evergreen_tools.Socks.Stream.Exact.{
  at_end, Received, ended, arrived, recv_lem, read_exact-Exact,
}
use drivers_evergreen_tools.Socks.Handler.{
  Session, Action, received, recv_one, read_bytes, require, present, decoded, text_or_error,
  is_byte,
}

-- The action succeeded on `s`, with its result and the session after it.
abbrev pub Succeeds : {A : Type 0} → Action A → Session → A → Session → Type 0
Succeeds m s a s' = m s ≡ (ok a, s')

unfoldable pub left : Session → List ℕ
left s = bytes s.input

pub require-Succeeds :
    (b : Bool) {s s' : Session} {u : Unit {0}} → Succeeds (require b) s u s' → (b ≡ true) × (s ≡ s')
unfolding require
require-Succeeds true h = (refl, ground arith)
require-Succeeds false h = ground arith

pub present-Succeeds :
    {A : Type 0} (o : Option A) {s s' : Session} {a : A}
    → Succeeds (present o) s a s'
    → (o ≡ some a) × (s ≡ s')
unfolding present
present-Succeeds none h = cc
present-Succeeds (some a) h = (ground arith, ground arith)

pub decoded-Succeeds :
    (v : List ℕ) {s s' : Session} {t : Text}
    → Succeeds (decoded v) s t s'
    → (decode v ≡ some t) × (s ≡ s')
unfolding decoded
decoded-Succeeds v {s} {s'} {t} h = from (decode v) h
  where
    from : (o : Option Text) → Succeeds (text_or_error o) s t s' → (o ≡ some t) × (s ≡ s')
    from none h = ground arith
    from (some a) h = (ground arith, ground arith)

-- What a successful `recv(1)` took from the stream.
pub record Took (chunk : List ℕ) (s s' : Session) : Type 0 where
  pub bytes : chunk ++ left s' ≡ left s
  pub short : length chunk ≤ 1

received_ok :
    (got : Option (List ℕ)) {chunk : List ℕ} {s s' : Session}
    → Succeeds (received got) s chunk s'
    → (got ≡ some chunk) × (s ≡ s')
received_ok none h = ground arith
received_ok (some a) h = (ground arith, ground arith)

at_end-some : (e : Ending) {chunk : List ℕ} → at_end e ≡ some chunk → chunk ≡ []
at_end-some closed h = ground arith
at_end-some broken h = cc

chunk_Took :
    {got : Option (List ℕ)} {e : Ending} {chunk : List ℕ} (s s' : Session)
    → Received 0 (left s) e got (left s')
    → got ≡ some chunk
    → Took chunk s s'
chunk_Took {e} s s' (ended n g r) h =
    let empty = at_end-some e (sym g ∙ h) in
    record { bytes = rw (empty, n) r; short = rw empty (omega arith) }
chunk_Took {chunk} s s' (arrived c cs g x k) h =
    let same : c ∷ cs ≡ chunk = some-injective (c ∷ cs) chunk (sym g ∙ h) in
    record { bytes = rw (← same) x; short = rw (← same) (omega arith) }

pub recv_one-Took :
    {chunk : List ℕ} {s s' : Session} → Succeeds recv_one s chunk s' → Took chunk s s'
unfolding recv_one left
recv_one-Took {s} {s'} h =
    let (g, e) = received_ok (recv 1 s.input).0 h in
    chunk_Took {e = s.input.ending} s s' (rw (← e) (recv_lem 0 s.input)) g

-- A one-byte test on what was taken.
pub byte_taken :
    {b : ℕ} (chunk : List ℕ) {s s' : Session}
    → Took chunk s s'
    → is_byte b chunk ≡ true
    → left s ≡ b ∷ left s'
byte_taken [] k h = cc
byte_taken (c ∷ []) k h = ground (arith, k.bytes)
byte_taken (c ∷ d ∷ l) k h = cc

-- What a `read_exact` whose result is not None took, given the byte that counts it.
pub record Counted (count : List ℕ) (v : List ℕ) (s s' : Session) : Type 0 where
  pub length : count ≡ length v ∷ []
  pub bytes : v ++ left s' ≡ left s

exact_some :
    (k : ℕ) (st : Stream) (v : List ℕ)
    → (read_exact k st).0 ≡ some v
    → (k ≡ length v) × (v ++ bytes (read_exact k st).1 ≡ bytes st)
exact_some k st v h =
    let x = read_exact-Exact k st in
    elim (Bool-cases (leb k (length (bytes st)))) [
      | inl fits ↦
          let fits' = leb→le k _ fits in
          let same : take k (bytes st) ≡ v = some-injective _ v (sym (x.enough fits') ∙ h) in
          (
            rw (← same) (sym (length-take_of_le k (bytes st) fits')),
            rw (← same, x.left) (take-append-drop k (bytes st)),
          )
      | inr less ↦ absurd (ground (arith, x.short (ground arith)))
    ]

pub read_bytes-Counted :
    (count : List ℕ) {v : List ℕ} {s s' : Session} (o : Option (List ℕ))
    → length count ≤ 1
    → Succeeds (read_bytes count) s o s'
    → o ≡ some v
    → Counted count v s s'
unfolding read_bytes read_counted left
read_bytes-Counted [] o c h e = absurd (ground arith)
read_bytes-Counted (k ∷ []) {v} {s} {s'} o c h e =
    let got : (read_exact k s.input).0 ≡ some v = ground arith in
    let (size, taken) = exact_some k s.input v got in
    record { length = ground arith; bytes = ground arith }
read_bytes-Counted (k ∷ l ∷ ks) o c h e = absurd (omega arith)
