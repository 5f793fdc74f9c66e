-- ===== src/Socks/Stream.antt =====
-- The bytes that arrive from a client, and `Socks5Handler.read_exact`.
pub mod Exact
use drivers_evergreen_tools.Common.{
  ℕ, zero, suc, ◌+◌, ◌-◌, ◌≤◌, ◌<◌, ◌≡◌, refl, List, [], ◌∷◌, ◌++◌, append_assoc, append-nil,
  Option, none, some, arith, ltb, leb, if◌then◌else◌, length, take, drop, Bool, true, false, Result,
  ok, raise,
}

-- How the connection ends behind the bytes: the client closes it, or it breaks.
pub data Ending : Type 0 where
  closed broken : Ending

-- TCP hands the bytes over in segments of any size.
pub record Stream : Type 0 where
  pub segments : List (List ℕ)
  pub ending : Ending

abbrev pub concat : List (List ℕ) → List ℕ
concat [] = []
concat (seg ∷ segs) = seg ++ concat segs

-- The bytes of a stream, with the segments forgotten.
abbrev pub bytes : Stream → List ℕ
bytes s = concat s.segments

-- `recv(n)` for 0 < n: at most `n` bytes of the first segment that has any; no bytes at the end of a
-- closed stream; `none` for the OSError of a broken one.
recv_from : ℕ → List (List ℕ) → Ending → Option (List ℕ) × List (List ℕ)
recv_from n [] closed = (some [], [])
recv_from n [] broken = (none, [])
recv_from n ([] ∷ segs) e = recv_from n segs e
recv_from n ((c ∷ cs) ∷ segs) e = (some (take n (c ∷ cs)), drop n (c ∷ cs) ∷ segs)

unfoldable pub recv : ℕ → Stream → Option (List ℕ) × Stream
unfolding recv_from
recv n s =
    let (got, segs) = recv_from n s.segments s.ending in
    (got, record { segments = segs; ending = s.ending })

-- The loop of `read_exact`: `need` bytes are missing, `buf` has arrived. An OSError or the end of
-- the stream gives None. Each round brings at least one byte, so `need` is fuel enough.
read_loop : ℕ → ℕ → List ℕ → Stream → Option (List ℕ) × Stream
read_loop f zero buf s = (some buf, s)
read_loop zero (suc need) buf s = (none, s)
read_loop (suc f) (suc need) buf s =
    let (got, s') = recv (suc need) s in
    elim got [
      | none ↦ (none, s')
      | some chunk ↦ elim chunk [
        | [] ↦ (none, s')
        | c ∷ cs ↦ read_loop f (suc need - length (c ∷ cs)) (buf ++ c ∷ cs) s'
      ]
    ]

-- `read_exact(n)` for a number.
unfoldable pub read_exact : ℕ → Stream → Option (List ℕ) × Stream
unfolding read_loop
read_exact n s = read_loop n n [] s

-- `read_exact(n)` for the bytes of one `recv(1)`.
unfoldable pub read_counted : List ℕ → Stream → Option (List ℕ) × Stream
read_counted [] s = (none, s)
read_counted (n ∷ _) s = read_exact n s
