-- ===== src/Orchestration/Wait.antt =====
-- The loops of drivers_orchestration.py that wait for a server: for the health of the container in
-- `start_atlas`, and for the port of mongo-orchestration in `start`.
pub mod Ends
use drivers_evergreen_tools.Common.{
  ℕ, zero, suc, ◌+◌, ◌-◌, ◌%◌, ◌≡◌, Bool, true, false, ◌&&◌, ◌||◌, not, List, [], ◌∷◌, ◌++◌, Option,
  none, some, leb, ltb, if◌then◌else◌, Result, ok, raise,
}
use drivers_evergreen_tools.Common.Text.{Text, codes, text_eq}

-- What `docker inspect` answered: the stripped output, or the exit code of a failure.
pub data Inspection : Type 0 where
  status : Text → Inspection
  failed : ℕ → Inspection

-- sys.exit
pub data Exit : Type 0 where
  exit : ℕ → Exit

-- The loop of `start_atlas`: the answers in their order, the number of the inspection, `tries`, and
-- the sleeps so far. `none` is out of fuel.
module _ (inspect : ℕ → Inspection) where
  health_step :
      Inspection → ℕ → ℕ → Option (Result Exit (Unit {0}) × ℕ) → Option (Result Exit (Unit {0}) × ℕ)
  health_step (failed code) tries slept again = some (raise (exit code), slept)
  health_step (status resp) tries slept again =
      if text_eq resp (codes "healthy")
      then some (ok tt, slept)
      else if leb 60 tries
      then some (raise (exit 1), slept)
      else again

  unfoldable pub health_loop : ℕ → ℕ → Option (Result Exit (Unit {0}) × ℕ)
  unfolding health_step
  health_loop zero tries = none
  health_loop (suc fuel) tries =
      health_step (inspect tries) tries tries (health_loop fuel (suc tries))

  -- The container is healthy, or the program exits; with the seconds that were slept.
  unfoldable pub wait_healthy : Option (Result Exit (Unit {0}) × ℕ)
  unfolding health_loop
  wait_healthy = health_loop 61 0

-- What a connect to the port gave: it is open, refused, or fails with another error.
pub data Connect : Type 0 where
  connected refused broken : Connect

pub data StartError : Type 0 where
  timed_out : StartError
  os_error : StartError

-- (now - start).seconds: the seconds without the days.
unfoldable pub seconds : ℕ → ℕ → ℕ
seconds start now = (now - start) % 86400

-- The loop of `start`: `clock` is the time at each round, in seconds.
module _ (connect : ℕ → Connect) (clock : ℕ → ℕ) (mo_start : ℕ) where
  connect_step :
      Connect
      → ℕ
      → Option (Result StartError (Unit {0}) × ℕ)
      → Option (Result StartError (Unit {0}) × ℕ)
  unfolding seconds
  connect_step connected round again = some (ok tt, round)
  connect_step broken round again = some (raise os_error, round)
  connect_step refused round again =
      if ltb 120 (seconds mo_start (clock round)) then some (raise timed_out, round) else again

  -- The result, with the rounds that went before.
  unfoldable pub connect_loop : ℕ → ℕ → Option (Result StartError (Unit {0}) × ℕ)
  unfolding connect_step
  connect_loop zero round = none
  connect_loop (suc fuel) round = connect_step (connect round) round (connect_loop fuel (suc round))
