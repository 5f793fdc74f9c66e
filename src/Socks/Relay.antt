-- ===== src/Socks/Relay.antt =====
-- `raw_proxy`: data passes between the client `a` and the outgoing socket `b`. What `select` and
-- `recv` give is a list of rounds; what is sent is kept for each socket.
use drivers_evergreen_tools.Common.{
  ℕ, ◌≡◌, refl, ◌∙◌, List, [], ◌∷◌, ◌++◌, append-nil, append_assoc, arith,
}

pub data Side : Type 0 where
  a b : Side

-- A readable socket, with what `recv(4096)` gives there; `recv` may also raise. Of a chunk that is
-- unsent, `sendall` sent the part that is given, and raised.
pub data Read : Type 0 where
  chunk : Side → List ℕ → Read
  fault : Side → Read
  unsent : Side → List ℕ → Read

-- `select` raises, or returns the readable sockets in order.
pub data Round : Type 0 where
  select_error : Round
  ready : List Read → Round

-- The loop goes on, has returned, or was left by an exception. Both sockets are closed by `with` in
-- the last two cases.
pub data Phase : Type 0 where
  running returned failed : Phase

pub record Proxy : Type 0 where
  pub to_a : List ℕ
  pub to_b : List ℕ
  pub phase : Phase

-- `b.sendall(buf)` for what came from `a`, and the other way round.
abbrev forward : Side → List ℕ → Proxy → Proxy
forward a buf p = record p { to_b = p.to_b ++ buf }
forward b buf p = record p { to_a = p.to_a ++ buf }

-- The inner loop, over the readable sockets.
unfoldable pub serve : List Read → Proxy → Proxy
serve [] p = p
serve (fault side ∷ reads) p = record p { phase = failed }
serve (unsent side sent ∷ reads) p = record (forward side sent p) { phase = failed }
serve (chunk side [] ∷ reads) p = record p { phase = returned }
serve (chunk side (c ∷ cs) ∷ reads) p = serve reads (forward side (c ∷ cs) p)

-- The `while` loop, for as many rounds as there are.
unfoldable pub raw_proxy : List Round → Proxy → Proxy
unfolding serve
raw_proxy [] p = p
raw_proxy (select_error ∷ rounds) p = record p { phase = returned }
raw_proxy (ready reads ∷ rounds) p =
    let p' = serve reads p in
    elim p'.phase [ running ↦ raw_proxy rounds p' | returned ↦ p' | failed ↦ p' ]

-- All reads in the order of time; a fault of `select` ends them like a closed socket.
unfoldable pub timeline : List Round → List Read
timeline [] = []
timeline (select_error ∷ rounds) = chunk a [] ∷ []
timeline (ready reads ∷ rounds) = reads ++ timeline rounds

-- The data of one side before the first end or fault, with the part of an unsent chunk.
unfoldable pub data_from : Side → List Read → List ℕ
data_from side [] = []
data_from side (fault _ ∷ reads) = []
data_from side (chunk _ [] ∷ reads) = []
data_from a (unsent a sent ∷ reads) = sent
data_from a (unsent b sent ∷ reads) = []
data_from b (unsent a sent ∷ reads) = []
data_from b (unsent b sent ∷ reads) = sent
data_from a (chunk a (c ∷ cs) ∷ reads) = (c ∷ cs) ++ data_from a reads
data_from a (chunk b (c ∷ cs) ∷ reads) = data_from a reads
data_from b (chunk a (c ∷ cs) ∷ reads) = data_from b reads
data_from b (chunk b (c ∷ cs) ∷ reads) = (c ∷ cs) ++ data_from b reads

-- How the reads end.
unfoldable pub phase_after : List Read → Phase
phase_after [] = running
phase_after (fault _ ∷ reads) = failed
phase_after (unsent _ sent ∷ reads) = failed
phase_after (chunk _ [] ∷ reads) = returned
phase_after (chunk _ (c ∷ cs) ∷ reads) = phase_after reads

-- The proxy over one list of reads, as a specification.
abbrev pub relayed : List Read → Proxy → Proxy
relayed reads p = record {
  to_a = p.to_a ++ data_from b reads;
  to_b = p.to_b ++ data_from a reads;
  phase = phase_after reads;
}

serve-relayed :
    (reads : List Read) (p : Proxy) → p.phase ≡ running → serve reads p ≡ relayed reads p
unfolding serve data_from phase_after
serve-relayed [] p h = ground (arith, append-nil p.to_a, append-nil p.to_b)
serve-relayed (fault side ∷ reads) p h = ground (arith, append-nil p.to_a, append-nil p.to_b)
serve-relayed (unsent a sent ∷ reads) p h = ground (arith, append-nil p.to_a)
serve-relayed (unsent b sent ∷ reads) p h = ground (arith, append-nil p.to_b)
serve-relayed (chunk side [] ∷ reads) p h = ground (arith, append-nil p.to_a, append-nil p.to_b)
serve-relayed (chunk a (c ∷ cs) ∷ reads) p h =
    serve-relayed reads (forward a (c ∷ cs) p) h
    ∙ ground (arith, append_assoc p.to_b (c ∷ cs) (data_from a reads))
serve-relayed (chunk b (c ∷ cs) ∷ reads) p h =
    serve-relayed reads (forward b (c ∷ cs) p) h
    ∙ ground (arith, append_assoc p.to_a (c ∷ cs) (data_from b reads))

abbrev goes_on {ℓ} : {A : Type ℓ} → Phase → A → A → A
goes_on running x y = x
goes_on returned x y = y
goes_on failed x y = y

data_from-append :
    (side : Side) (xs ys : List Read)
    → data_from side (xs ++ ys)
      ≡ goes_on (phase_after xs) (data_from side xs ++ data_from side ys) (data_from side xs)
unfolding data_from phase_after
data_from-append side [] ys = refl
data_from-append side (fault _ ∷ xs) ys = refl
data_from-append a (unsent a sent ∷ xs) ys = refl
data_from-append a (unsent b sent ∷ xs) ys = refl
data_from-append b (unsent a sent ∷ xs) ys = refl
data_from-append b (unsent b sent ∷ xs) ys = refl
data_from-append side (chunk _ [] ∷ xs) ys = refl
data_from-append a (chunk a (c ∷ cs) ∷ xs) ys =
    ground
      (arith, data_from-append a xs ys, append_assoc (c ∷ cs) (data_from a xs) (data_from a ys))
data_from-append a (chunk b (c ∷ cs) ∷ xs) ys = data_from-append a xs ys
data_from-append b (chunk a (c ∷ cs) ∷ xs) ys = data_from-append b xs ys
data_from-append b (chunk b (c ∷ cs) ∷ xs) ys =
    ground
      (arith, data_from-append b xs ys, append_assoc (c ∷ cs) (data_from b xs) (data_from b ys))

phase_after-append :
    (xs ys : List Read)
    → phase_after (xs ++ ys) ≡ goes_on (phase_after xs) (phase_after ys) (phase_after xs)
unfolding phase_after
phase_after-append [] ys = refl
phase_after-append (fault _ ∷ xs) ys = refl
phase_after-append (unsent _ sent ∷ xs) ys = refl
phase_after-append (chunk _ [] ∷ xs) ys = refl
phase_after-append (chunk _ (c ∷ cs) ∷ xs) ys = phase_after-append xs ys

relayed-append :
    (xs ys : List Read) (p : Proxy)
    → relayed (xs ++ ys) p ≡ goes_on (phase_after xs) (relayed ys (relayed xs p)) (relayed xs p)
relayed-append xs ys p = ground (
  arith,
  data_from-append a xs ys,
  data_from-append b xs ys,
  phase_after-append xs ys,
  append_assoc p.to_a (data_from b xs) (data_from b ys),
  append_assoc p.to_b (data_from a xs) (data_from a ys),
)

-- Whatever the rounds, each socket is sent exactly the data that the other one gave before the first
-- end or fault of either, in order and nothing else, but for what an exception of `sendall` loses of
-- the last chunk; and the loop ends as the first of these says.
pub raw_proxy-relayed :
    (rounds : List Round) (p : Proxy)
    → p.phase ≡ running
    → raw_proxy rounds p ≡ relayed (timeline rounds) p
unfolding raw_proxy timeline
raw_proxy-relayed [] p h =
    unfold data_from phase_after in ground (arith, append-nil p.to_a, append-nil p.to_b)
raw_proxy-relayed (select_error ∷ rounds) p h =
    unfold data_from phase_after in ground (arith, append-nil p.to_a, append-nil p.to_b)
raw_proxy-relayed (ready reads ∷ rounds) p h = ground (
  arith,
  serve-relayed reads p h,
  relayed-append reads (timeline rounds) p,
  raw_proxy-relayed rounds (serve reads p),
)
