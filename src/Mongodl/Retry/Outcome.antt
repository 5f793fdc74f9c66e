-- ===== src/Mongodl/Retry/Outcome.antt =====
-- What the loop of attempts ends with, how often it tries, and how long it sleeps.
use drivers_evergreen_tools.Common.{
  ℕ, zero, suc, ◌+◌, ◌≤◌, ◌<◌, ◌≡◌, refl, sym, ap, ◌∙◌, true, false, inl, inr, ◌⊎◌, List, [], ◌∷◌,
  ◌++◌, append-nil, length, append_assoc, Option, some, arith, leb, Result, ok, raise,
}
use drivers_evergreen_tools.Common.Exec.{Exec}
use drivers_evergreen_tools.Common.Text.{Text}
use drivers_evergreen_tools.Mongodl.Retry.{
  Failure, gpg_environment, transient, Retrier, new_retrier, delay, retry, loop, run,
}

-- The sleeps before the next `k` attempts, where `a` retries have been made.
pub backoffs : ℕ → ℕ → List ℕ
backoffs a zero = []
backoffs a (suc k) = delay (suc a) ∷ backoffs (suc a) k

pub length-backoffs : (a k : ℕ) → length (backoffs a k) ≡ k
unfolding backoffs
length-backoffs a zero = refl
length-backoffs a (suc k) = ap suc (length-backoffs (suc a) k)

module _ {W A : Type 0} (attempt : Exec W Failure A) where
  -- `k` attempts in a row fail with an exception that is retried, from the first world to the last.
  pub data Fails : ℕ → W → W → Type 0 where
    start : {w : W} → Fails zero w w
    again :
        {k : ℕ} {w w₁ w' : W} (t : Text)
        → attempt w ≡ (raise (transient t), w₁)
        → Fails k w₁ w'
        → Fails (suc k) w w'

  -- A result that ends the loop before the retries are used up.
  abbrev pub IsFinal : Result Failure A → Type 0
  IsFinal (ok a) = Unit
  IsFinal (raise (gpg_environment t)) = Unit
  IsFinal (raise (transient t)) = ⊥

  -- The loop fails `tries` times, and ends with the result of the next attempt: a final one, or
  -- the one at which no retry is left.
  pub record Outcome (left used : ℕ) (slept : List ℕ) (w : W)
      (o : Option (Result Failure A × W × List ℕ)) : Type 0 where
    pub tries : ℕ
    pub before : W
    pub result : Result Failure A
    pub after : W
    pub fails : Fails tries w before
    pub attempted : attempt before ≡ (result, after)
    pub ends : o ≡ some (result, after, slept ++ backoffs used tries)
    pub enough : tries ≤ left
    pub last : IsFinal result ⊎ (tries ≡ left)

  later-Outcome :
      (left used : ℕ) (slept : List ℕ) (w w₁ : W) (t : Text)
      → attempt w ≡ (raise (transient t), w₁)
      → (o : Option (Result Failure A × W × List ℕ))
      → Outcome left (suc used) (slept ++ delay (suc used) ∷ []) w₁ o
      → Outcome (suc left) used slept w o
  unfolding backoffs
  later-Outcome left used slept w w₁ t e o h = record {
    tries = suc h.tries;
    before = h.before;
    result = h.result;
    after = h.after;
    fails = again t e h.fails;
    attempted = h.attempted;
    ends =
        h.ends
        ∙ ap (λ s. some (h.result, h.after, s))
            (append_assoc slept (delay (suc used) ∷ []) (backoffs (suc used) h.tries));
    enough = omega arith;
    last = elim h.last [ inl f ↦ inl f | inr k ↦ inr (omega arith) ];
  }

  first-Outcome :
      (left used : ℕ) (slept : List ℕ) (w w₁ : W) (r : Result Failure A)
      → attempt w ≡ (r, w₁)
      → IsFinal r ⊎ (0 ≡ left)
      → Outcome left used slept w (some (r, w₁, slept))
  unfolding backoffs
  first-Outcome left used slept w w₁ r e f = record {
    tries = 0;
    before = w;
    result = r;
    after = w₁;
    fails = start;
    attempted = e;
    ends = ap (λ s. some (r, w₁, s)) (sym (append-nil slept));
    enough = omega arith;
    last = f;
  }

  abbrev at : ℕ → ℕ → Retrier
  at n used = record { retries = n; attempt = used }

  -- What the loop does with so much fuel.
  Loops : ℕ → Type 0
  Loops fuel =
      (n left used : ℕ) (slept : List ℕ) (w : W)
      → n ≡ used + left
      → left < fuel
      → Outcome left used slept w (loop attempt fuel (at n used) slept w)

  settle-Outcome :
      (fuel n left used : ℕ) (slept : List ℕ) (w w₁ : W) (r : Result Failure A)
      → attempt w ≡ (r, w₁)
      → n ≡ used + left
      → left ≤ fuel
      → Loops fuel
      → Outcome left used slept w (loop attempt (suc fuel) (at n used) slept w)
  unfolding loop retry Loops
  settle-Outcome fuel n left used slept w w₁ (ok a) e hn h ih =
      rw e (first-Outcome left used slept w w₁ (ok a) e (inl tt))
  settle-Outcome fuel n left used slept w w₁ (raise (gpg_environment t)) e hn h ih =
      rw e (first-Outcome left used slept w w₁ (raise (gpg_environment t)) e (inl tt))
  settle-Outcome fuel n zero used slept w w₁ (raise (transient t)) e hn h ih =
      let no_more : leb n used ≡ true = ground arith in
      rw (e, no_more) (first-Outcome zero used slept w w₁ (raise (transient t)) e (inr refl))
  settle-Outcome fuel n (suc left) used slept w w₁ (raise (transient t)) e hn h ih =
      let more : leb n used ≡ false = ground arith in
      rw (e, more)
        (later-Outcome left used slept w w₁ t e _
          (ih n left (suc used) (slept ++ delay (suc used) ∷ []) w₁ (omega arith) (omega arith)))

  loop-Loops : (fuel : ℕ) → Loops fuel
  unfolding Loops
  loop-Loops zero n left used slept w hn h = absurd (omega arith)
  loop-Loops (suc fuel) n left used slept w hn h =
      settle-Outcome fuel n left used slept w (attempt w).1 (attempt w).0 refl hn (omega arith)
        (loop-Loops fuel)

  -- The loop always ends. It fails at most `retries` times, sleeps before each further attempt, and
  -- ends with the next attempt: a success or a broken gpg environment, which is not tried again, or
  -- the last exception once the retries are used up.
  pub run-Outcome : (retries : ℕ) (w : W) → Outcome retries 0 [] w (run attempt retries w)
  unfolding run new_retrier Loops
  run-Outcome retries w =
      loop-Loops (suc retries) retries retries 0 [] w (omega arith) (omega arith)
