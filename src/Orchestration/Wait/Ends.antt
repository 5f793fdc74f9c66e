-- ===== src/Orchestration/Wait/Ends.antt =====
-- The loops end, and what they end with.
use drivers_evergreen_tools.Common.{
  ℕ, zero, suc, ◌+◌, ◌-◌, ◌≤◌, ◌<◌, ◌≡◌, ◌⊎◌, refl, ap, subst, inl, inr, arith, true, false,
  Bool-cases, Option, some, leb, ltb, leb→le, ltb→lt, Result, ok, raise,
}
use drivers_evergreen_tools.Common.Text.{codes, text_eq}
use drivers_evergreen_tools.Orchestration.Wait.{
  Inspection, status, failed, Exit, exit, health_step, health_loop, wait_healthy, Connect,
  connected, refused, broken, StartError, timed_out, os_error, seconds, connect_step, connect_loop,
}

-- The answer of an inspection that lets the loop go on.
unfoldable pub IsPending : Inspection → Type 0
IsPending (failed code) = ⊥
IsPending (status resp) = text_eq resp (codes "healthy") ≡ false

-- What an answer, and the count of tries, ends the loop with.
unfoldable pub Decides : Inspection → ℕ → Result Exit (Unit {0}) → Type 0
Decides (failed code) n r = r ≡ raise (exit code)
Decides (status resp) n r =
    ((text_eq resp (codes "healthy") ≡ true) × (r ≡ ok tt))
    ⊎ ((text_eq resp (codes "healthy") ≡ false) × (n ≡ 60) × (r ≡ raise (exit 1)))

module _ (inspect : ℕ → Inspection) where
  -- The loop ends at the answer `n`, the first that does not let it go on, at the latest the last.
  pub record EndsAt (from n : ℕ) (r : Result Exit (Unit {0})) : Type 0 where
    pub in_time : n ≤ 60
    pub pending : (k : ℕ) → from ≤ k → k < n → IsPending (inspect k)
    pub decided : Decides (inspect n) n r

  EndsAt-next :
      (tries n : ℕ) (r : Result Exit (Unit {0}))
      → IsPending (inspect tries)
      → suc tries ≤ n
      → EndsAt (suc tries) n r
      → EndsAt tries n r
  EndsAt-next tries n r p l e = record {
    in_time = e.in_time;
    pending = λ k from below. elim (lt_or_eq tries k from) [
      | inl later ↦ e.pending k later below
      | inr same ↦ subst (λ j. IsPending (inspect j)) same p
    ];
    decided = e.decided;
  }
    where
      lt_or_eq : (a b : ℕ) → a ≤ b → (suc a ≤ b) ⊎ (a ≡ b)
      lt_or_eq zero zero h = inr refl
      lt_or_eq zero (suc b) h = inl (omega arith)
      lt_or_eq (suc a) zero h = absurd (omega arith)
      lt_or_eq (suc a) (suc b) h = elim (lt_or_eq a b (omega arith)) [
        | inl l ↦ inl (omega arith)
        | inr e ↦ inr (ap suc e)
      ]

  EndsAt-here :
      (tries : ℕ) (r : Result Exit (Unit {0}))
      → tries ≤ 60
      → Decides (inspect tries) tries r
      → EndsAt tries tries r
  EndsAt-here tries r l d = record {
    in_time = l;
    pending = λ k from below. absurd (omega arith);
    decided = d;
  }

  abbrev Ended : ℕ → ℕ → Option (Result Exit (Unit {0}) × ℕ) → Type 0
  Ended from tries ended =
      (n : ℕ) × (r : Result Exit (Unit {0})) × (ended ≡ some (r, n)) × (tries ≤ n) × EndsAt from n r

  last_try : (tries : ℕ) → tries ≤ 60 → leb 60 tries ≡ true → tries ≡ 60
  last_try tries l h = omega (arith, leb→le 60 tries h)

  health_step-Ended :
      (a : Inspection) (tries : ℕ) (again : Option (Result Exit (Unit {0}) × ℕ))
      → inspect tries ≡ a
      → tries ≤ 60
      → (suc tries ≤ 60 → Ended (suc tries) (suc tries) again)
      → Ended tries tries (health_step inspect a tries tries again)
  unfolding health_step Decides IsPending
  health_step-Ended (failed code) tries again h l later =
      (tries, raise (exit code), refl, omega arith, EndsAt-here tries _ l (rw h refl))
  health_step-Ended (status resp) tries again h l later =
      elim (Bool-cases (text_eq resp (codes "healthy"))) [
        | inl e ↦
            (tries, ok tt, rw e refl, omega arith, EndsAt-here tries _ l (rw h (inl (e, refl))))
        | inr e ↦ (elim (Bool-cases (leb 60 tries)) [
          | inl f ↦ (
            tries,
            raise (exit 1),
            rw (e, f) refl,
            omega arith,
            EndsAt-here tries _ l (rw h (inr (e, last_try tries l f, refl))),
          )
          | inr f ↦
              let (n, r, ended, after, ends) = later (ground arith) in
              (n, r, rw (e, f) ended, omega arith, EndsAt-next tries n r (rw h e) after ends)
        ])
      ]

  health_loop-Ended :
      (fuel tries : ℕ)
      → fuel + tries ≡ 61
      → tries ≤ 60
      → Ended tries tries (health_loop inspect fuel tries)
  unfolding health_loop
  health_loop-Ended zero tries e l = absurd (omega arith)
  health_loop-Ended (suc fuel) tries e l =
      health_step-Ended (inspect tries) tries (health_loop inspect fuel (suc tries)) refl l
        (λ more. health_loop-Ended fuel (suc tries) (omega arith) more)

  -- The wait for the container always ends, after at most 61 inspections and 60 seconds of sleep: at
  -- the first inspection that reports a healthy container or fails, or at the last with exit code 1.
  pub wait_healthy-EndsAt :
      (n : ℕ) × (r : Result Exit (Unit {0})) × (wait_healthy inspect ≡ some (r, n)) × EndsAt 0 n r
  unfolding wait_healthy
  wait_healthy-EndsAt =
      let (n, r, ended, _, ends) = health_loop-Ended 61 0 refl (omega arith) in (n, r, ended, ends)

-- What a round of `start` ends with.
unfoldable pub Settles : Connect → ℕ → Result StartError (Unit {0}) → Type 0
Settles connected elapsed r = r ≡ ok tt
Settles broken elapsed r = r ≡ raise os_error
Settles refused elapsed r = (120 < elapsed) × (r ≡ raise timed_out)

module _ (connect : ℕ → Connect) (clock : ℕ → ℕ) (mo_start : ℕ) where
  -- The loop ends at round `n`: every earlier round was refused within the two minutes.
  pub record Settled (n : ℕ) (r : Result StartError (Unit {0})) : Type 0 where
    pub in_time : n ≤ 121
    pub settles : Settles (connect n) (clock n - mo_start) r
    pub refusals : (k : ℕ) → k < n → (connect k ≡ refused) × (clock k ≤ mo_start + 120)

  -- The time that passes between two rounds: the second of sleep, and less than a day.
  abbrev pub Ticks : Type 0
  Ticks = (k : ℕ) → (suc (clock k) ≤ clock (suc k)) × (clock (suc k) ≤ clock k + 86000)

  -- What is known when round `k` begins.
  record Running (k : ℕ) : Type 0 where
    rounds : k ≤ 121
    least : mo_start + k ≤ clock k
    most : clock k ≤ mo_start + 86120
    before : (j : ℕ) → j < k → (connect j ≡ refused) × (clock j ≤ mo_start + 120)

  seconds_lem :
      (now : ℕ) → mo_start ≤ now → now ≤ mo_start + 86120 → seconds mo_start now ≡ now - mo_start
  unfolding seconds
  seconds_lem now a b = omega arith

  Running-next :
      (k : ℕ) → Ticks → Running k → connect k ≡ refused → clock k ≤ mo_start + 120 → Running (suc k)
  Running-next k tick run e l = record {
    rounds = omega (arith, run.least);
    least = omega (arith, (tick k).0, run.least);
    most = omega (arith, (tick k).1);
    before = λ j below. elim (lt_or_same j k below) [
      | inl earlier ↦ run.before j earlier
      | inr same ↦ rw same (e, l)
    ];
  }
    where
      lt_or_same : (a b : ℕ) → a < suc b → (a < b) ⊎ (a ≡ b)
      lt_or_same zero zero h = inr refl
      lt_or_same zero (suc b) h = inl (omega arith)
      lt_or_same (suc a) zero h = absurd (omega arith)
      lt_or_same (suc a) (suc b) h = elim (lt_or_same a b (omega arith)) [
        | inl l ↦ inl (omega arith)
        | inr e ↦ inr (ap suc e)
      ]

  Running-ends :
      (k : ℕ) (r : Result StartError (Unit {0}))
      → Running k
      → Settles (connect k) (clock k - mo_start) r
      → Settled k r
  Running-ends k r run e = record { in_time = run.rounds; settles = e; refusals = run.before }

  abbrev SettledBy : Option (Result StartError (Unit {0}) × ℕ) → Type 0
  SettledBy ended =
      (n : ℕ) × (r : Result StartError (Unit {0})) × (ended ≡ some (r, n)) × Settled n r

  connect_step-Settled :
      (c : Connect) (k : ℕ) (again : Option (Result StartError (Unit {0}) × ℕ))
      → connect k ≡ c
      → Running k
      → (connect k ≡ refused → clock k ≤ mo_start + 120 → SettledBy again)
      → SettledBy (connect_step connect clock mo_start c k again)
  unfolding connect_step Settles
  connect_step-Settled connected k again e run later =
      (k, ok tt, refl, Running-ends k (ok tt) run (rw e refl))
  connect_step-Settled broken k again e run later =
      (k, raise os_error, refl, Running-ends k (raise os_error) run (rw e refl))
  connect_step-Settled refused k again e run later =
      let elapsed = seconds_lem (clock k) (omega (arith, run.least)) run.most in
      elim (Bool-cases (ltb 120 (seconds mo_start (clock k)))) [
        | inl over ↦ (
          k,
          raise timed_out,
          rw over refl,
          Running-ends k (raise timed_out) run
              (rw e (omega (arith, ltb→lt 120 _ over, elapsed), refl)),
        )
        | inr within ↦
            let (n, r, ended, settled) = later e (ground (arith, elapsed, run.least)) in
            (n, r, rw within ended, settled)
      ]

  connect_loop-SettledBy :
      (fuel k : ℕ)
      → fuel + k ≡ 122
      → Ticks
      → Running k
      → SettledBy (connect_loop connect clock mo_start fuel k)
  unfolding connect_loop
  connect_loop-SettledBy zero k e tick run = absurd (omega (arith, run.rounds))
  connect_loop-SettledBy (suc fuel) k e tick run =
      connect_step-Settled (connect k) k (connect_loop connect clock mo_start fuel (suc k)) refl run
        (λ no_server early.
          connect_loop-SettledBy fuel (suc k) (omega arith) tick
            (Running-next k tick run no_server early))

  -- If the clock goes on by at least the second that is slept, and by less than a day, the wait for
  -- mongo-orchestration ends within 122 rounds: at the first round that connects or fails with
  -- another error than a refusal, or with a timeout, which comes only after two minutes.
  pub connect_loop-Settled :
      Ticks
      → mo_start ≤ clock 0
      → clock 0 ≤ mo_start + 86000
      → (n : ℕ) × (r : Result StartError (Unit {0})) × (connect_loop connect clock mo_start 122 0
          ≡ some (r, n))
        × Settled n r
  connect_loop-Settled tick a b = connect_loop-SettledBy 122 0 refl tick (record {
    rounds = omega arith;
    least = omega arith;
    most = omega arith;
    before = λ j below. absurd (omega arith);
  })
