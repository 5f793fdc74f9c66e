-- ===== src/Socks/Stream/Exact.antt =====
-- `read_exact` reads the next bytes, however they are cut into segments.
use drivers_evergreen_tools.Common.{
  ℕ, zero, suc, ◌+◌, ◌-◌, ◌≤◌, ◌<◌, ◌≡◌, refl, sym, ap, ◌∙◌, ◌⊎◌, inl, inr, List, [], ◌∷◌, ◌++◌,
  append_assoc, append-nil, Option, none, some, arith, length, take, drop, length-append,
  length-take_le, take-append, drop-append, take-append-drop,
}
use drivers_evergreen_tools.Socks.Stream.{
  Ending, closed, broken, Stream, concat, bytes, recv_from, recv, read_loop, read_exact,
}

abbrev pub at_end : Ending → Option (List ℕ)
at_end closed = some []
at_end broken = none

-- What one `recv` does to the bytes that are left.
pub data Received (k : ℕ) (all : List ℕ) (e : Ending) (got : Option (List ℕ)) (rest : List ℕ)
    : Type 0 where
  ended : all ≡ [] → got ≡ at_end e → rest ≡ [] → Received k all e got rest
  arrived :
      (c : ℕ) (cs : List ℕ)
      → got ≡ some (c ∷ cs)
      → (c ∷ cs) ++ rest ≡ all
      → length cs ≤ k
      → Received k all e got rest

recv_from_lem :
    (k : ℕ) (segs : List (List ℕ)) (e : Ending)
    → let out = recv_from (suc k) segs e in Received k (concat segs) e out.0 (concat out.1)
unfolding recv_from
recv_from_lem k [] closed = ended refl refl refl
recv_from_lem k [] broken = ended refl refl refl
recv_from_lem k ([] ∷ segs) e = recv_from_lem k segs e
recv_from_lem k ((c ∷ cs) ∷ segs) e =
    arrived c (take k cs) refl
      (ap (λ (l : List ℕ). c ∷ l)
        (sym (append_assoc (take k cs) (drop k cs) (concat segs))
          ∙ ap (λ (l : List ℕ). l ++ concat segs) (take-append-drop k cs)))
      (length-take_le k cs)

pub recv_lem :
    (k : ℕ) (s : Stream)
    → Received k (bytes s) s.ending (recv (suc k) s).0 (bytes (recv (suc k) s).1)
unfolding recv
recv_lem k s = recv_from_lem k s.segments s.ending

pub ending-recv : (n : ℕ) (s : Stream) → (recv n s).1.ending ≡ s.ending
unfolding recv
ending-recv n s = refl

-- What reading `need` bytes does.
pub record Exact (need : ℕ) (buf : List ℕ) (s : Stream) (out : Option (List ℕ) × Stream)
    : Type 0 where
  pub enough : need ≤ length (bytes s) → out.0 ≡ some (buf ++ take need (bytes s))
  pub short : length (bytes s) < need → out.0 ≡ none
  pub left : bytes out.1 ≡ drop need (bytes s)
  pub ending : out.1.ending ≡ s.ending

at_end-cases : (e : Ending) → (at_end e ≡ none) ⊎ (at_end e ≡ some [])
at_end-cases closed = inr refl
at_end-cases broken = inl refl

none-Exact :
    (need : ℕ) (buf : List ℕ) (s s' : Stream)
    → bytes s ≡ []
    → bytes s' ≡ []
    → s'.ending ≡ s.ending
    → Exact (suc need) buf s (none, s')
none-Exact need buf s s' e r k = record {
  enough = λ h. absurd (omega (arith, ap (length {0}) e));
  short = λ h. refl;
  left = rw (e, r);
  ending = k;
}

-- A chunk that arrived, and then the rest.
chunk-Exact :
    (need : ℕ) (buf chunk : List ℕ) (s s' : Stream) (out : Option (List ℕ) × Stream)
    → length chunk ≤ need
    → chunk ++ bytes s' ≡ bytes s
    → s'.ending ≡ s.ending
    → Exact (need - length chunk) (buf ++ chunk) s' out
    → Exact need buf s out
chunk-Exact need buf chunk s s' out fits e k h =
    let size : length (bytes s) ≡ length chunk + length (bytes s') =
      rw (← e) (length-append chunk (bytes s')) in
    record {
      enough = λ more.
          h.enough (omega arith)
          ∙ rw (← e)
              (rw (take-append need chunk (bytes s') fits) (ap some (append_assoc buf chunk _)));
      short = λ less. h.short (omega arith);
      left = h.left ∙ rw (← e) (sym (drop-append need chunk (bytes s') fits));
      ending = h.ending ∙ k;
    }

read_loop-Exact :
    (f need : ℕ) (buf : List ℕ) (s : Stream) → need ≤ f → Exact need buf s (read_loop f need buf s)
unfolding read_loop
read_loop-Exact f zero buf s h = record {
  enough = λ k. ap some (sym (append-nil buf));
  short = λ k. absurd (omega arith);
  left = refl;
  ending = refl;
}
read_loop-Exact zero (suc need) buf s h = absurd (omega arith)
read_loop-Exact (suc f) (suc need) buf s h = elim (recv_lem need s) [
  | ended e g r ↦ elim (at_end-cases s.ending) [
    | inl k ↦ rw (g ∙ k, read_loop) (none-Exact need buf s _ e r (ending-recv (suc need) s))
    | inr k ↦ rw (g ∙ k, read_loop) (none-Exact need buf s _ e r (ending-recv (suc need) s))
  ]
  | arrived c cs g e k ↦
      rw (g, read_loop)
        (chunk-Exact (suc need) buf (c ∷ cs) s (recv (suc need) s).1 _ (omega arith) e
          (ending-recv (suc need) s)
          (read_loop-Exact f (suc need - length (c ∷ cs)) (buf ++ c ∷ cs) (recv (suc need) s).1
            (omega arith)))
]

-- However the client's bytes are cut into segments, `read_exact` returns the next `n` bytes if
-- there are as many, and leaves the rest; otherwise it returns None and nothing is left.
pub read_exact-Exact : (n : ℕ) (s : Stream) → Exact n [] s (read_exact n s)
unfolding read_exact
read_exact-Exact n s = read_loop-Exact n n [] s (omega arith)
