-- ===== src/Mongodl/Retry.antt =====
-- `DownloadRetrier` and the `while True` loop of `_dl_component` around an attempt.
pub mod Outcome
use drivers_evergreen_tools.Common.{
  ℕ, zero, suc, ◌+◌, ◌-◌, ◌^◌, min, Bool, true, false, List, [], ◌∷◌, ◌++◌, Option, none, some, leb,
  if◌then◌else◌, Result, ok, raise,
}
use drivers_evergreen_tools.Common.Exec.{Exec}
use drivers_evergreen_tools.Common.Text.{Text}

-- The exceptions of an attempt: a GpgEnvironmentError, or another one.
pub data Failure : Type 0 where
  gpg_environment : Text → Failure
  transient : Text → Failure

pub record Retrier : Type 0 where
  pub retries : ℕ
  pub attempt : ℕ

unfoldable pub new_retrier : ℕ → Retrier
new_retrier retries = record { retries = retries; attempt = 0 }

-- The seconds of sleep before the attempt of that number.
unfoldable pub delay : ℕ → ℕ
delay attempt = min (2 ^ (attempt - 1)) 600

-- What `retry` returns, the retrier behind it, and all sleeps so far.
unfoldable pub retry : Retrier → List ℕ → Bool × Retrier × List ℕ
unfolding delay
retry retrier slept = if leb retrier.retries retrier.attempt then (false, retrier, slept) else (
  true,
  record retrier { attempt = suc retrier.attempt },
  slept ++ delay (suc retrier.attempt) ∷ [],
)

module _ {W A : Type 0} (attempt : Exec W Failure A) where
  -- What an attempt leads to: the end, or another round. `none` is out of fuel.
  abbrev settle :
      Result Failure A
      → W
      → List ℕ
      → Bool
      → Option (Result Failure A × W × List ℕ)
      → Option (Result Failure A × W × List ℕ)
  settle (ok a) w slept again round = some (ok a, w, slept)
  settle (raise (gpg_environment t)) w slept again round =
      some (raise (gpg_environment t), w, slept)
  settle (raise (transient t)) w slept again round =
      if again then round else some (raise (transient t), w, slept)

  unfoldable pub loop : ℕ → Retrier → List ℕ → W → Option (Result Failure A × W × List ℕ)
  unfolding retry
  loop zero retrier slept w = none
  loop (suc fuel) retrier slept w =
      let (r, w') = attempt w in
      let (again, retrier', slept') = retry retrier slept in
      settle r w' slept again (loop fuel retrier' slept' w')

  -- The loop with a new retrier. The fuel is the first attempt and the retries.
  unfoldable pub run : ℕ → W → Option (Result Failure A × W × List ℕ)
  unfolding loop new_retrier
  run retries w = loop (suc retries) (new_retrier retries) [] w
