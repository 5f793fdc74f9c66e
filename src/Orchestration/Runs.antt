-- ===== src/Orchestration/Runs.antt =====
-- Waits, stops and runs of the program.
use drivers_evergreen_tools.Orchestration.Tests.{config_host, no_options}
use drivers_evergreen_tools.Common.{
  ℕ, ◌+◌, ◌≡◌, ◌⊎◌, refl, arith, true, false, ◌||◌, List, [], ◌∷◌, ◌++◌, none, some, All, Result,
  ok, raise, if◌then◌else◌, ◌==◌, ◌*◌,
}
use drivers_evergreen_tools.Common.Exec.{pure, stop as halt, ◌>>=◌}
use drivers_evergreen_tools.Common.Text.{codes, text_eq, split}
use drivers_evergreen_tools.Common.Text.Decimal.{span_digits}
use drivers_evergreen_tools.Mongodl.Pattern.{split_at}
use drivers_evergreen_tools.Mongodl.Url.{is_prefix, contains}
use drivers_evergreen_tools.Orchestration.Config.{no_file, get_orchestration_data}
use drivers_evergreen_tools.Orchestration.Wait.{
  Inspection, status, Exit, wait_healthy, Connect, connected, refused, StartError, connect_loop,
}
use drivers_evergreen_tools.Orchestration.Wait.Ends.{
  EndsAt, wait_healthy-EndsAt, Ticks, Settled, connect_loop-Settled,
}
use drivers_evergreen_tools.Orchestration.Stop as Stop
use drivers_evergreen_tools.Orchestration.Stop.{
  told, denied, shutdown_named, Action, terminate, kill, remove_tree, shutdown_container, State,
  Process, cluster, stays, stop, shutdown_all, shutdown_proc, shutdown_servers, is_orchestration,
  is_server, is_atlas, repo_of, rpartition_colon, int_of,
}
use drivers_evergreen_tools.Orchestration.Stop.Targets.{IsTarget, stop-IsTarget}
use drivers_evergreen_tools.Orchestration.Stop.Complete.{IsEnded, stop-IsEnded}
use drivers_evergreen_tools.Orchestration.Run as Run
use drivers_evergreen_tools.Orchestration.Run.{World, run}
use drivers_evergreen_tools.Orchestration.Run.Order.{run-FetchesNothing, run-StartsNothing}
use drivers_evergreen_tools.Orchestration.Run.Fails.{FailsWith}
use drivers_evergreen_tools.Orchestration.Run.Fails.{StartsNothing}
use drivers_evergreen_tools.Orchestration.Run.Fails.{FetchesNothing}

abbrev healthy_third : ℕ → Inspection
healthy_third n = if n == 2 then status (codes "healthy") else status (codes "starting")

wait_healthy-EndsAt_example :
    (n : ℕ) × (r : Result Exit (Unit {0})) × (wait_healthy healthy_third ≡ some (r, n))
    × EndsAt healthy_third 0 n r
wait_healthy-EndsAt_example = wait_healthy-EndsAt healthy_third

abbrev open_fifth : ℕ → Connect
open_fifth n = if n == 4 then connected else refused

abbrev slow_clock : ℕ → ℕ
slow_clock n = 1000 + n * 2

slow_ticks : Ticks open_fifth slow_clock 999
slow_ticks k = (omega arith, omega arith)

connect_loop-Settled_example :
    (n : ℕ) × (r : Result StartError (Unit {0})) × (connect_loop open_fifth slow_clock 999 122 0
      ≡ some (r, n))
    × Settled open_fifth slow_clock 999 n r
connect_loop-Settled_example =
    connect_loop-Settled open_fifth slow_clock 999 slow_ticks (omega arith) (omega arith)

connected_fifth : connect_loop open_fifth slow_clock 999 122 0 ≡ some (ok tt, 4)
unfolding connect_loop
connected_fifth = refl

abbrev stop_host : Stop.Host
stop_host = record {
  pid_exists = λ p. true;
  answer = λ p. stays;
  exists_path = λ path. true;
  loads = λ t. cluster (record { server_pid = 31; db_path = codes "/data" } ∷ []) [];
  processes =
      record { pid = 8; cmdline = denied; name = told (codes "mongod") }
      ∷ record { pid = 9; cmdline = told (codes "bash" ∷ []); name = told (codes "bash") }
      ∷ [];
  docker = some (codes "docker");
  images = some (codes "mongo:8" ++ 9 ∷ codes "c1");
}

abbrev running : State
running = record {
  pid_file = some (codes "17");
  out_log = some (codes "{}");
  container_file = none;
  done = [];
}

abbrev stopped_state : State
stopped_state = (stop stop_host running).1

stopped_run : stop stop_host running ≡ (ok tt, stopped_state)
unfolding stop shutdown_all shutdown_named shutdown_proc shutdown_servers is_orchestration is_server
    is_atlas repo_of rpartition_colon int_of split span_digits split_at contains is_prefix text_eq
    pure halt ◌>>=◌
stopped_run = refl

stopped_done :
    stopped_state.done
    ≡ terminate 17
      ∷ kill 17
      ∷ terminate 31
      ∷ kill 31
      ∷ remove_tree (codes "/data")
      ∷ shutdown_container (codes "c1")
      ∷ terminate 8
      ∷ kill 8
      ∷ []
unfolding stop shutdown_all shutdown_named shutdown_proc shutdown_servers is_orchestration is_server
    is_atlas repo_of rpartition_colon int_of split span_digits split_at contains is_prefix text_eq
    pure halt ◌>>=◌
stopped_done = refl

stop-IsTarget_example :
    (new : List Action) × ((stop stop_host running).1.done ≡ [] ++ new)
    × All (IsTarget stop_host running) new
stop-IsTarget_example = stop-IsTarget stop_host running

stop-IsEnded_example :
    All
      (λ (q : Process).
        ((is_orchestration stop_host q || is_server stop_host q) ≡ false)
        ⊎ IsEnded (stop_host.answer q.pid) q.pid stopped_state)
      stop_host.processes
stop-IsEnded_example = stop-IsEnded stop_host running stopped_state stopped_run

abbrev new_world : World
new_world = record { events = []; mo_expansion_yml = none; mo_expansion_sh = none; uri_txt = none }

abbrev run_host : Run.Host
run_host = record {
  config_host = record config_host { read_text = λ path. none };
  github_action = true;
  mongodl = λ args. none;
  mongosh_dl = λ args. none;
  copytree = λ dir. none;
  command = λ cmd. none;
  mongod_output = none;
  stop_error = none;
  crypt_name = codes "mongo_crypt_v1.so";
  crypt_exists = true;
  runner_supported = λ version. ok true;
  atlas_uri = ok (codes "mongodb://atlas");
  runner_uri = λ fs. ok (codes "mongodb://runner");
  start_error = none;
  deployment = λ fs. ok (none, codes "mongodb://orchestration");
}

missing_file :
    get_orchestration_data run_host.config_host no_options []
    ≡ (raise (no_file (codes "/home/configs/servers/basic-ssl.json")), [])
unfolding get_orchestration_data halt ◌>>=◌
missing_file = refl

run-FetchesNothing_example : FailsWith FetchesNothing new_world (run run_host no_options new_world)
run-FetchesNothing_example =
    run-FetchesNothing run_host no_options new_world
      (no_file (codes "/home/configs/servers/basic-ssl.json")) [] missing_file

run-StartsNothing_example :
    FailsWith StartsNothing new_world
      (run (record run_host { config_host = config_host }) no_options new_world)
run-StartsNothing_example =
    run-StartsNothing (record run_host { config_host = config_host }) no_options new_world refl
