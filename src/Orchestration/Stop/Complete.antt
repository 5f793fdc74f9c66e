-- ===== src/Orchestration/Stop/Complete.antt =====
-- What `stop` sends to the processes that it is for.
use drivers_evergreen_tools.Common.{
  ℕ, ◌≡◌, ◌⊎◌, refl, inl, inr, arith, Bool, true, false, ◌||◌, Bool-cases, List, [], ◌∷◌, ◌++◌,
  Option, none, some, All, Some, ok, if◌then◌else◌,
}
use drivers_evergreen_tools.Common.Exec.{pure, stop as halt, ◌>>◌, >>=-succeeds}
use drivers_evergreen_tools.Common.Text.{Text}
use drivers_evergreen_tools.Mongodl.Pattern.{split_at}
use drivers_evergreen_tools.Orchestration.Stop.{
  Error, Action, terminate, kill, shutdown_container, State, Process, Answer, ends, stays, refuses,
  unkillable, access_denied, raises_denied, shutdown_named, Host, M, act, by_answer, shutdown_proc,
  is_orchestration, is_server, shutdown_all, is_atlas, by_line, by_lines, by_images, stop,
}

abbrev pub Did : Action → State → Type 0
Did x s = Some (λ a. a ≡ x) s.done

-- What a process that so answers got: `terminate`, and `kill` as well where it stayed. Where
-- `terminate` raises, nothing was done to it.
abbrev pub IsEnded : Answer → ℕ → State → Type 0
IsEnded ends p s = Did (terminate p) s
IsEnded stays p s = Did (terminate p) s × Did (kill p) s
IsEnded refuses p s = Unit
IsEnded unkillable p s = Did (terminate p) s

IsEnded-grows :
    (s s' : State)
    → ((x : Action) → Did x s → Did x s')
    → (answer : Answer) (p : ℕ) → IsEnded answer p s
    → IsEnded answer p s'
IsEnded-grows s s' grows ends p h = grows (terminate p) h
IsEnded-grows s s' grows stays p h = (grows (terminate p) h.0, grows (kill p) h.1)
IsEnded-grows s s' grows refuses p h = tt
IsEnded-grows s s' grows unkillable p h = grows (terminate p) h

module _ (host : Host) where
  -- What was done stays done.
  abbrev Grows : M → Type 0
  Grows m = (s s' : State) (x : Action) → m s ≡ (ok tt, s') → Did x s → Did x s'

  Some-append :
      (x : Action) (xs ys : List Action) → Some (λ a. a ≡ x) xs → Some (λ a. a ≡ x) (xs ++ ys)
  Some-append x [] ys h = elim h [ ]
  Some-append x (y ∷ xs) ys (inl e) = inl e
  Some-append x (y ∷ xs) ys (inr h) = inr (Some-append x xs ys h)

  Some-last : (x : Action) (xs : List Action) → Some (λ a. a ≡ x) (xs ++ x ∷ [])
  Some-last x [] = inl refl
  Some-last x (y ∷ xs) = inr (Some-last x xs)

  Grows-then : (m n : M) → Grows m → Grows n → Grows (m >> n)
  Grows-then m n gm gn s s' p h sent =
      let (u, s₁, first, second) = >>=-succeeds m (λ _. n) s h in
      gn s₁ s' p second (gm s s₁ p first sent)

  Grows-act : (a : Action) → Grows (act a)
  unfolding act
  Grows-act a s s' p h sent =
      let e : s' ≡ record s { done = s.done ++ a ∷ [] } = ground arith in
      rw e (Some-append p s.done (a ∷ []) sent)

  Grows-pure : Grows (pure tt)
  unfolding pure
  Grows-pure s s' p h sent = let e : s' ≡ s = ground arith in rw e sent

  Grows-halt : (e : Error) → Grows (halt e)
  unfolding halt
  Grows-halt e s s' p h sent = absurd (ground arith)

  Grows-if : (b : Bool) (m n : M) → Grows m → Grows n → Grows (if b then m else n)
  Grows-if true m n gm gn = gm
  Grows-if false m n gm gn = gn

  act-Did : (x : Action) (s s' : State) → act x s ≡ (ok tt, s') → Did x s'
  unfolding act
  act-Did x s s' h =
      let e : s' ≡ record s { done = s.done ++ x ∷ [] } = ground arith in rw e (Some-last x s.done)

  by_answer-IsEnded :
      (p : ℕ) (a : Answer) (s s' : State) → by_answer host p a s ≡ (ok tt, s') → IsEnded a p s'
  unfolding by_answer
  by_answer-IsEnded p ends s s' h = act-Did (terminate p) s s' h
  by_answer-IsEnded p refuses s s' h = tt
  by_answer-IsEnded p unkillable s s' h = act-Did (terminate p) s s' h
  by_answer-IsEnded p stays s s' h =
      let (u, s₁, first, second) = >>=-succeeds (act (terminate p)) (λ _. act (kill p)) s h in
      (
        Grows-act (kill p) s₁ s' (terminate p) second (act-Did (terminate p) s s₁ first),
        act-Did (kill p) s₁ s' second,
      )

  Grows-by_answer : (p : ℕ) (a : Answer) → Grows (by_answer host p a)
  unfolding by_answer
  Grows-by_answer p ends = Grows-act (terminate p)
  Grows-by_answer p refuses = Grows-pure
  Grows-by_answer p unkillable = Grows-act (terminate p)
  Grows-by_answer p stays =
      Grows-then (act (terminate p)) (act (kill p)) (Grows-act (terminate p)) (Grows-act (kill p))

  Grows-shutdown_all :
      (test : Process → Bool) (ps : List Process) → Grows (shutdown_all host test ps)
  unfolding shutdown_all shutdown_proc
  Grows-shutdown_all test [] = Grows-pure
  Grows-shutdown_all test (q ∷ ps) =
      Grows-then (if test q then shutdown_proc host q.pid else pure tt) (shutdown_all host test ps)
        (Grows-if (test q) (shutdown_proc host q.pid) (pure tt)
          (Grows-by_answer q.pid (host.answer q.pid)) Grows-pure)
        (Grows-shutdown_all test ps)

  Grows-shutdown_named : (ps : List Process) → Grows (shutdown_named host ps)
  unfolding shutdown_named shutdown_proc
  Grows-shutdown_named [] = Grows-pure
  Grows-shutdown_named (q ∷ ps) =
      Grows-if (raises_denied host q) (halt access_denied) _ (Grows-halt access_denied) (
        Grows-then (if is_server host q then shutdown_proc host q.pid else pure tt)
          (shutdown_named host ps)
          (Grows-if (is_server host q) (shutdown_proc host q.pid) (pure tt)
            (Grows-by_answer q.pid (host.answer q.pid)) Grows-pure)
          (Grows-shutdown_named ps))

  Grows-by_line : (line : List Text) → Grows (by_line host line)
  unfolding by_line
  Grows-by_line [] = Grows-halt _
  Grows-by_line (image ∷ []) = Grows-halt _
  Grows-by_line (image ∷ id ∷ []) =
      Grows-if (is_atlas host image) (act (shutdown_container id)) (pure tt)
        (Grows-act (shutdown_container id)) Grows-pure
  Grows-by_line (image ∷ id ∷ more ∷ parts) = Grows-halt _

  Grows-by_lines : (lines : List Text) → Grows (by_lines host lines)
  unfolding by_lines
  Grows-by_lines [] = Grows-pure
  Grows-by_lines (line ∷ lines) =
      Grows-then (by_line host (split_at 9 [] line)) (by_lines host lines)
        (Grows-by_line (split_at 9 [] line)) (Grows-by_lines lines)

  Grows-by_images : (docker : Option Text) → Grows (by_images host docker)
  unfolding by_images
  Grows-by_images none = Grows-pure
  Grows-by_images (some docker) = Grows-by_lines _

  -- A process of the test was ended.
  abbrev Left : (Process → Bool) → State → Process → Type 0
  Left test s q = (test q ≡ false) ⊎ IsEnded (host.answer q.pid) q.pid s

  tested-Left :
      (test : Process → Bool) (q : Process) (s s' : State)
      → (if test q then shutdown_proc host q.pid else pure tt) s ≡ (ok tt, s')
      → Left test s' q
  unfolding shutdown_proc
  tested-Left test q s s' h = elim (Bool-cases (test q)) [
    | inl e ↦ inr (by_answer-IsEnded q.pid (host.answer q.pid) s s' (rw e at h))
    | inr e ↦ inl e
  ]

  shutdown_all-Left :
      (test : Process → Bool) (ps : List Process) (s s' : State)
      → shutdown_all host test ps s ≡ (ok tt, s')
      → All (Left test s') ps
  unfolding shutdown_all
  shutdown_all-Left test [] s s' h = tt
  shutdown_all-Left test (q ∷ ps) s s' h =
      let (u, s₁, first, rest) =
        >>=-succeeds (if test q then shutdown_proc host q.pid else pure tt) _ s h in
      (
        elim (tested-Left test q s s₁ first) [
          | inl e ↦ inl e
          | inr sent ↦ inr (
              IsEnded-grows s₁ s' (λ x did. Grows-shutdown_all test ps s₁ s' x rest did)
                (host.answer q.pid) q.pid sent)
        ],
        shutdown_all-Left test ps s₁ s' rest,
      )

  shutdown_named-Left :
      (ps : List Process) (s s' : State)
      → shutdown_named host ps s ≡ (ok tt, s')
      → All (Left (is_server host) s') ps
  unfolding shutdown_named halt
  shutdown_named-Left [] s s' h = tt
  shutdown_named-Left (q ∷ ps) s s' h = elim (Bool-cases (raises_denied host q)) [
    | inl e ↦ absurd (ground (arith, rw e at h))
    | inr e ↦
        let (u, s₁, first, rest) =
          >>=-succeeds (if is_server host q then shutdown_proc host q.pid else pure tt)
            (λ _. shutdown_named host ps) s (rw e at h) in
        (
          elim (tested-Left (is_server host) q s s₁ first) [
            | inl f ↦ inl f
            | inr sent ↦ inr (
                IsEnded-grows s₁ s' (λ x did. Grows-shutdown_named ps s₁ s' x rest did)
                  (host.answer q.pid) q.pid sent)
          ],
          shutdown_named-Left ps s₁ s' rest,
        )
  ]

  both-Left :
      (test test' : Process → Bool) (s s' : State) (ps : List Process)
      → ((x : Action) → Did x s → Did x s')
      → All (Left test s) ps
      → All (Left test' s') ps
      → All
          (λ (q : Process). ((test q || test' q) ≡ false) ⊎ IsEnded (host.answer q.pid) q.pid s')
          ps
  both-Left test test' s s' [] grows h k = tt
  both-Left test test' s s' (q ∷ ps) grows (inl e, h) (inl f, k) =
      (inl (rw (e, f) refl), both-Left test test' s s' ps grows h k)
  both-Left test test' s s' (q ∷ ps) grows (inr sent, h) (l, k) = (
    inr (IsEnded-grows s s' grows (host.answer q.pid) q.pid sent),
    both-Left test test' s s' ps grows h k,
  )
  both-Left test test' s s' (q ∷ ps) grows (inl e, h) (inr sent, k) =
      (inr sent, both-Left test test' s s' ps grows h k)

  -- Where `stop` succeeds, each process of the list whose command line shows mongo-orchestration, or
  -- that is named like a server, was sent `terminate`, and `kill` too where it did not end in time,
  -- unless psutil raised for it.
  pub stop-IsEnded :
      (s s' : State)
      → stop host s ≡ (ok tt, s')
      → All
          (λ (q : Process).
            ((is_orchestration host q || is_server host q) ≡ false)
            ⊎ IsEnded (host.answer q.pid) q.pid s')
          host.processes
  unfolding stop
  stop-IsEnded s s' h =
      let (u₁, s₁, before, servers) =
        >>=-succeeds _ (λ _. shutdown_named host host.processes) s h in
      let (u₂, s₂, earlier, images) = >>=-succeeds _ (λ _. by_images host host.docker) s before in
      let (u₃, s₃, files, orchestrations) =
        >>=-succeeds _ (λ _. shutdown_all host (is_orchestration host) host.processes) s earlier in
      both-Left (is_orchestration host) (is_server host) s₂ s' host.processes
        (λ x did.
          Grows-shutdown_named host.processes s₁ s' x servers
            (Grows-by_images host.docker s₂ s₁ x images did))
        (shutdown_all-Left (is_orchestration host) host.processes s₃ s₂ orchestrations)
        (shutdown_named-Left host.processes s₁ s' servers)
