-- ===== src/Orchestration/Run/Order.antt =====
-- What `run` does before it fails.
use drivers_evergreen_tools.Common.{◌≡◌, ◌≢◌, refl, sym, true, [], append-nil, ok, raise}
use drivers_evergreen_tools.Common.Exec.{stop as halt, ◌>>◌, >>=-succeeds}
use drivers_evergreen_tools.Orchestration.Json.{Fields}
use drivers_evergreen_tools.Orchestration.Options.{Options}
use drivers_evergreen_tools.Orchestration.Otel.{Dirs}
use drivers_evergreen_tools.Orchestration.Config as Config
use drivers_evergreen_tools.Orchestration.Config.{get_orchestration_data}
use drivers_evergreen_tools.Orchestration.Run.{
  World, Host, made_dirs, config_error, orchestration_data, otel_data, before_downloads, server,
  legacy_shell, crypt_shared, mongosh, downloads, after_data, run, write_uri, cluster, uses_runner,
  attribute_error,
}
use drivers_evergreen_tools.Orchestration.Run.Fails.{
  FetchesNothing, StartsNothing, FailsWith, fails_first, fails_bind, fails_then,
  Adds-before_downloads, Adds-server,
}

-- No chain succeeds without the configuration.
data_needed :
    (host : Host) (opts : Options) (w : World) (e : Config.Error) (d : Dirs)
    → get_orchestration_data host.config_host opts [] ≡ (raise e, d)
    → (fs : Fields) (w' : World) → before_downloads host opts w ≢ (ok fs, w')
unfolding before_downloads orchestration_data made_dirs config_error
data_needed host opts w e d failed fs w' h =
    let (fs₁, w₁, earlier, _) = >>=-succeeds _ (otel_data host opts) w h in
    let (u, w₂, _, read) = >>=-succeeds _ (λ _. orchestration_data host opts) w earlier in
    cc (rw failed at read)

-- A configuration that cannot be read costs no download: `run` fails, and has fetched nothing.
pub run-FetchesNothing :
    (host : Host) (opts : Options) (w : World) (e : Config.Error) (d : Dirs)
    → get_orchestration_data host.config_host opts [] ≡ (raise e, d)
    → FailsWith FetchesNothing w (run host opts w)
unfolding FetchesNothing run
run-FetchesNothing host opts w e d failed =
    fails_first FetchesNothing (before_downloads host opts) (after_data host opts) w
      (Adds-before_downloads FetchesNothing host opts tt tt (λ _. tt))
      (data_needed host opts w e d failed)

legacy_fails :
    (host : Host) (opts : Options) (w : World)
    → opts.install_legacy_shell ≡ true
    → FailsWith StartsNothing w ((server host opts >> legacy_shell host opts) w)
unfolding legacy_shell StartsNothing halt
legacy_fails host opts w legacy =
    fails_then StartsNothing (server host opts) (λ _. legacy_shell host opts) w
      (Adds-server StartsNothing host opts tt tt (λ _. tt) (λ _. tt) (λ _. tt) (λ _. tt))
      (λ u w'. rw legacy (record {
        error = attribute_error;
        fails = refl;
        new = [];
        events = sym (append-nil w'.events);
        only = tt;
      }))

-- `--install-legacy-shell` ends every run in an error before any deployment is started.
pub run-StartsNothing :
    (host : Host) (opts : Options) (w : World)
    → opts.install_legacy_shell ≡ true
    → FailsWith StartsNothing w (run host opts w)
unfolding StartsNothing run after_data downloads legacy_shell
run-StartsNothing host opts w legacy =
    fails_then StartsNothing (before_downloads host opts) (after_data host opts) w
      (Adds-before_downloads StartsNothing host opts tt tt (λ _. tt))
      (λ fs w'. fails_bind StartsNothing _ (write_uri host opts) w' (
        fails_bind StartsNothing _ (cluster host opts fs) w' (
          fails_bind StartsNothing _ (λ _. uses_runner host opts) w'
            (fails_bind StartsNothing _ (λ _. mongosh host opts) w'
              (fails_bind StartsNothing _ (λ _. crypt_shared host opts) w'
                (legacy_fails host opts w' legacy))))))
