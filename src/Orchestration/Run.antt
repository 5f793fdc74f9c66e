-- ===== src/Orchestration/Run.antt =====
-- `run` of drivers_orchestration.py, with `clean_run` and `start_atlas`. What `run` calls outside of
-- this file, and `stop` and `start`, leave an event and the result that the host gives: the
-- downloads, commands, the cluster's start. The arguments of the downloaders are the text that
-- `shlex.split` takes apart.
pub mod Fails
pub mod Order
use drivers_evergreen_tools.Common.{
  ℕ, zero, suc, ◌≡◌, Bool, true, false, ◌&&◌, ◌||◌, not, List, [], ◌∷◌, ◌++◌, Option, none, some,
  any, ltb, ◌==◌, if◌then◌else◌, Result, ok, raise,
}
use drivers_evergreen_tools.Common.Exec.{Exec, pure, stop as halt, ◌>>=◌, ◌>>◌}
use drivers_evergreen_tools.Common.Text.{Text, codes, text_eq}
use drivers_evergreen_tools.Common.Text.Decimal.{span_digits}
use drivers_evergreen_tools.Mongodl.Url.{contains}
use drivers_evergreen_tools.Orchestration.Json.{Value, obj, Fields}
use drivers_evergreen_tools.Orchestration.Options.{Options, is_set, or_default}
use drivers_evergreen_tools.Orchestration.Otel as Otel
use drivers_evergreen_tools.Orchestration.Otel.{
  Dirs, handle_otel_config, validate_otel_opts, check_mongod_version,
}
use drivers_evergreen_tools.Orchestration.Config as Config
use drivers_evergreen_tools.Orchestration.Config.{get_orchestration_data, replace}

pub data Error : Type 0 where
  otel : Otel.Error → Error
  config : Config.Error → Error
  failed : Text → Error
  no_crypt_shared : Error
  -- LOGGER.INFO is no method.
  attribute_error : Error

pub data Event : Type 0 where
  stopped : Event
  cleaned : Event
  made : Dirs → Event
  downloaded : Text → Event
  copied : Text → Event
  ran : Text → Event
  downloaded_mongosh : Text → Event
  started_atlas : Event
  started_runner : Event
  started_orchestration : Event
  posted : Fields → Event

pub record World : Type 0 where
  pub events : List Event
  pub mo_expansion_yml : Option Text
  pub mo_expansion_sh : Option Text
  pub uri_txt : Option Text

-- What the calls give. `none` is success, a text the error.
pub record Host : Type 0 where
  pub config_host : Config.Host
  pub github_action : Bool
  pub mongodl : Text → Option Text
  pub mongosh_dl : Text → Option Text
  pub copytree : Text → Option Text
  pub command : Text → Option Text
  pub mongod_output : Option Text
  pub stop_error : Option Text
  pub crypt_name : Text
  pub crypt_exists : Bool
  -- _mongodb_runner_supported
  pub runner_supported : Text → Result Text Bool
  pub atlas_uri : Result Text Text
  pub runner_uri : Fields → Result Text Text
  pub start_error : Option Text
  -- The answer to the POST: "mongodb_auth_uri" if it is there, and "mongodb_uri".
  pub deployment : Fields → Result Text (Option Text × Text)

abbrev pub M {ℓ} : Type ℓ → Type ℓ
M A = World → Result Error A × World

abbrev pub Step : Type 0
Step = Exec World Error (Unit {0})

unfoldable pub event : Event → Step
event e w = (ok tt, record w { events = w.events ++ e ∷ [] })

unfoldable pub or_fail : Option Text → Step
or_fail none = pure tt
or_fail (some t) = halt (failed t)

-- `clean_run`: the files of an earlier run are gone.
unfoldable pub clean_run : Step
unfolding event
clean_run = event cleaned >> λ w.
    (ok tt, record w { mo_expansion_yml = none; mo_expansion_sh = none; uri_txt = none })

-- "latest" is the newest nightly build, which needs credentials.
unfoldable pub mongodl_version : Bool → Options → Text
mongodl_version github_action opts =
    let version = or_default opts.version [] in
    if (github_action || opts.local_atlas) && text_eq version (codes "latest")
    then codes "latest-stable"
    else version

abbrev volume : Options → Text → Text → Text
volume opts quiet verbose = if opts.quiet then quiet else if opts.verbose then verbose else []

-- The major and minor version that `v?(\d+\.\d+)` finds at the front of the version.
without_v : Text → Text
without_v [] = []
without_v (c ∷ s) = if c == b'v' then s else c ∷ s

minor_of : Text → Text × Text → Option Text
minor_of major ([], rest) = none
minor_of major ((d ∷ ds), rest) = some (major ++ b'.' ∷ d ∷ ds)

behind_major : Text × Text → Option Text
unfolding minor_of
behind_major ([], rest) = none
behind_major ((d ∷ ds), []) = none
behind_major ((d ∷ ds), (c ∷ s)) = if c == b'.' then minor_of (d ∷ ds) (span_digits s) else none

unfoldable pub major_minor : Text → Option Text
unfolding without_v behind_major
major_minor version = behind_major (span_digits (without_v version))

unfoldable pub is_too_old : Option Text → Bool
is_too_old none = false
is_too_old (some v) = text_eq v (codes "3.6") || text_eq v (codes "4.0")

module _ (host : Host) where
  validated : Result Otel.Error (Unit {0}) → Step
  validated (ok u) = pure tt
  validated (raise e) = halt (otel e)

  -- The events of the directories, and the result.
  made_dirs : Result Error Fields × Dirs → Exec World Error Fields
  unfolding event
  made_dirs (r, dirs) w = (r, record w { events = w.events ++ made dirs ∷ [] })

  config_error : Result Config.Error Fields × Dirs → Result Error Fields × Dirs
  config_error (ok fs, dirs) = (ok fs, dirs)
  config_error (raise e, dirs) = (raise (config e), dirs)

  otel_error : Result Otel.Error Value × Dirs → Fields → Result Error Fields × Dirs
  otel_error (ok (obj fs), dirs) given = (ok fs, dirs)
  otel_error (ok _, dirs) given = (ok given, dirs)
  otel_error (raise e, dirs) given = (raise (otel e), dirs)

  otel_root : Text
  otel_root = host.config_host.drivers_tools ++ codes "/otel"

  unfoldable pub orchestration_data : Options → Exec World Error Fields
  unfolding made_dirs config_error
  orchestration_data opts =
      made_dirs (config_error (get_orchestration_data host.config_host opts []))

  unfoldable pub otel_data : Options → Fields → Exec World Error Fields
  unfolding made_dirs otel_error otel_root
  otel_data opts fs =
      if opts.otel
      then made_dirs (otel_error (handle_otel_config otel_root (obj fs) []) fs)
      else pure fs

  call_stop : Step
  unfolding event or_fail
  call_stop = event stopped >> or_fail host.stop_error

  -- What is done before the downloads.
  unfoldable pub before_downloads : Options → Exec World Error Fields
  unfolding validated call_stop clean_run
  before_downloads opts =
      validated (validate_otel_opts host.config_host.docker_running opts)
      >> call_stop
      >> clean_run
      >> orchestration_data opts
      >>= otel_data opts

  binaries : Options → Text
  binaries opts = host.config_host.spelled (or_default opts.mongodb_binaries [])

  default_args : Options → Text
  unfolding binaries
  default_args opts =
      codes "--out "
      ++ (binaries opts
          ++ (codes " --cache-dir "
              ++ (host.config_host.spelled (host.config_host.drivers_tools ++ codes "/.local/cache")
                  ++ (codes " --retries 5"
                      ++ (volume opts (codes " -q") (codes " -v")
                          ++ (if is_set opts.arch
                              then codes " --arch=" ++ or_default opts.arch []
                              else []))))))

  call_mongodl : Text → Step
  unfolding event or_fail
  call_mongodl args = event (downloaded args) >> or_fail (host.mongodl args)

  run_command : Text → Step
  unfolding event or_fail
  run_command cmd = event (ran cmd) >> or_fail (host.command cmd)

  archive : Options → Step
  unfolding call_mongodl default_args event or_fail
  archive opts =
      if is_set opts.existing_binaries_dir
      then event (copied (or_default opts.existing_binaries_dir []))
        >> or_fail (host.copytree (or_default opts.existing_binaries_dir []))
      else call_mongodl (
          default_args opts
          ++ (codes " --version "
              ++ (mongodl_version host.github_action opts
                  ++ codes " --strip-path-components 2 --component archive")))

  pub server : Options → Step
  unfolding archive run_command binaries validated
  server opts =
      if opts.local_atlas
      then pure tt
      else (archive opts
          >> run_command (binaries opts ++ codes "/mongod --version")
          >> (if opts.otel then validated (check_mongod_version host.mongod_output) else pure tt))

  -- The log call raises before the download.
  legacy_shell : Options → Step
  legacy_shell opts = if opts.install_legacy_shell then halt attribute_error else pure tt

  write_crypt : Text → Step
  write_crypt t w = (
    ok tt,
    record w {
      mo_expansion_yml = some t;
      mo_expansion_sh = some (replace (codes ": ") (codes "=") t);
    },
  )

  crypt_shared : Options → Step
  unfolding call_mongodl default_args write_crypt
  crypt_shared opts =
      if opts.skip_crypt_shared
      then pure tt
      else (call_mongodl (
            default_args opts
            ++ (codes " --version "
                ++ (mongodl_version host.github_action opts
                    ++ codes " --strip-path-components 1 --component crypt_shared")))
          >> (if host.crypt_exists
              then write_crypt (
                  codes "CRYPT_SHARED_LIB_PATH: \""
                  ++ (host.config_host.spelled
                        (host.config_host.drivers_tools ++ b'/' ∷ host.crypt_name)
                      ++ codes "\""))
              else halt no_crypt_shared))

  mongosh : Options → Step
  unfolding event or_fail binaries
  mongosh opts =
      let args =
        codes "--out "
        ++ (binaries opts
            ++ (codes " --strip-path-components 2 --retries 5"
                ++ (if opts.verbose
                    then codes " -v"
                    else if opts.quiet
                    then codes " -q"
                    else []))) in
      event (downloaded_mongosh args) >> or_fail (host.mongosh_dl args)

  unfoldable pub downloads : Options → Step
  unfolding server legacy_shell crypt_shared mongosh
  downloads opts = server opts >> legacy_shell opts >> crypt_shared opts >> mongosh opts

  supported : Result Text Bool → Exec World Error Bool
  supported (ok b) = pure b
  supported (raise t) = halt (failed t)

  -- Whether mongodb-runner starts the deployment.
  unfoldable pub uses_runner : Options → Exec World Error Bool
  unfolding supported
  uses_runner opts =
      if opts.local_atlas || not opts.mongodb_runner
      then pure false
      else if is_too_old (major_minor (or_default opts.version []))
      then pure false
      else supported (host.runner_supported (or_default opts.version []))

  returned_uri : Result Text Text → Exec World Error Text
  returned_uri (ok uri) = pure uri
  returned_uri (raise t) = halt (failed t)

  -- A refused deployment stops mongo-orchestration again.
  deployed : Result Text (Option Text × Text) → Exec World Error Text
  unfolding call_stop
  deployed (ok (some auth_uri, uri)) = pure auth_uri
  deployed (ok (none, uri)) = pure uri
  deployed (raise t) = call_stop >> halt (failed t)

  started : Event → Result Text Text → Exec World Error Text
  unfolding event returned_uri
  started e r = event e >> returned_uri r

  by_orchestration : Fields → Exec World Error Text
  unfolding event or_fail deployed
  by_orchestration fs =
      event started_orchestration
      >> or_fail host.start_error
      >> event (posted fs)
      >> deployed (host.deployment fs)

  cluster : Options → Fields → Bool → Exec World Error Text
  unfolding started by_orchestration
  cluster opts fs runner =
      if opts.local_atlas
      then started started_atlas host.atlas_uri
      else if runner
      then started started_runner (host.runner_uri fs)
      else by_orchestration fs

  abbrev or_empty : Option Text → Text
  or_empty none = []
  or_empty (some t) = t

  abbrev pub yml_line : Text → Text → Text
  yml_line key v = 10 ∷ key ++ (codes ": \"" ++ (v ++ codes "\""))

  abbrev pub sh_line : Text → Text → Text
  sh_line key v = 10 ∷ key ++ (codes "=\"" ++ (v ++ codes "\""))

  trace_dir : Options → Text
  unfolding otel_root
  trace_dir opts = if opts.otel then host.config_host.spelled otel_root else []

  -- The expansions and uri.txt.
  unfoldable pub write_uri : Options → Text → Step
  unfolding trace_dir
  write_uri opts uri w = (
    ok tt,
    record w {
      mo_expansion_yml = some (
          or_empty w.mo_expansion_yml
          ++ (yml_line (codes "MONGODB_URI") uri
              ++ yml_line (codes "OTEL_TRACE_DIR") (trace_dir opts)));
      mo_expansion_sh = some (
          or_empty w.mo_expansion_sh
          ++ (sh_line (codes "MONGODB_URI") uri
              ++ sh_line (codes "OTEL_TRACE_DIR") (trace_dir opts)));
      uri_txt = some uri;
    },
  )

  unfoldable pub after_data : Options → Fields → Step
  unfolding cluster
  after_data opts fs = downloads opts >> uses_runner opts >>= cluster opts fs >>= write_uri opts

  unfoldable pub run : Options → Step
  run opts = before_downloads opts >>= after_data opts
