-- ===== src/Orchestration/Options.antt =====
-- The options of drivers_orchestration.py and their environment variables: `get_options` for `run`,
-- behind argparse, and `normalize_path`.
use drivers_evergreen_tools.Common.{
  Bool, true, false, ◌&&◌, ◌||◌, not, [], ◌∷◌, ◌++◌, Option, none, some, any, ◌==◌, if◌then◌else◌,
}
use drivers_evergreen_tools.Common.Text.{Text, codes, text_eq}
use drivers_evergreen_tools.Common.Text.Regex.{expect_all}
use drivers_evergreen_tools.Mongodl.Target.{lower}
use drivers_evergreen_tools.Mongodl.Url.{cut}

pub record Options : Type 0 where
  pub verbose : Bool
  pub quiet : Bool
  pub version : Option Text
  pub topology : Option Text
  pub auth : Bool
  pub ssl : Bool
  pub local_atlas : Bool
  pub mongodb_runner : Bool
  pub orchestration_file : Option Text
  pub load_balancer : Bool
  pub auth_aws : Bool
  pub skip_crypt_shared : Bool
  pub install_legacy_shell : Bool
  pub disable_test_commands : Bool
  pub storage_engine : Option Text
  pub require_api_version : Bool
  pub existing_binaries_dir : Option Text
  pub tls_pem_key_file : Option Text
  pub tls_ca_file : Option Text
  pub tls_allow_invalid_certificates : Bool
  pub arch : Option Text
  pub otel : Bool
  pub mongo_orchestration_home : Option Text
  pub mongodb_binaries : Option Text
  pub tls_cert_key_file : Option Text

-- Python's truth of an optional text.
abbrev pub is_set : Option Text → Bool
is_set none = false
is_set (some []) = false
is_set (some (c ∷ s)) = true

abbrev pub or_default : Option Text → Text → Text
or_default none d = d
or_default (some []) d = d
or_default (some (c ∷ s)) d = c ∷ s

-- os.environ
abbrev pub Environment : Type 0
Environment = Text → Option Text

module _ (environ : Environment) where
  flag_of : Option Text → Bool → Bool
  flag_of none given = given
  flag_of (some []) given = given
  flag_of (some (c ∷ s)) given = true

  auth_of : Option Text → Bool → Bool
  auth_of none given = given
  auth_of (some t) given = text_eq t (codes "auth")

  ssl_of : Option Text → Bool → Bool
  ssl_of none given = given
  ssl_of (some t) given = is_set (some t) && not (text_eq (lower t) (codes "nossl"))

  text_of : Option Text → Option Text → Option Text
  text_of none given = given
  text_of (some t) given = some t

  -- The loop over `vars(opts)`.
  unfoldable pub override : Options → Options
  unfolding flag_of auth_of ssl_of text_of
  override opts = record {
    verbose = flag_of (environ (codes "VERBOSE")) opts.verbose;
    quiet = flag_of (environ (codes "QUIET")) opts.quiet;
    version = text_of (environ (codes "MONGODB_VERSION")) opts.version;
    topology = text_of (environ (codes "TOPOLOGY")) opts.topology;
    auth = auth_of (environ (codes "AUTH")) opts.auth;
    ssl = ssl_of (environ (codes "SSL")) opts.ssl;
    local_atlas = flag_of (environ (codes "LOCAL_ATLAS")) opts.local_atlas;
    mongodb_runner = flag_of (environ (codes "MONGODB_RUNNER")) opts.mongodb_runner;
    orchestration_file = text_of (environ (codes "ORCHESTRATION_FILE")) opts.orchestration_file;
    load_balancer = flag_of (environ (codes "LOAD_BALANCER")) opts.load_balancer;
    auth_aws = flag_of (environ (codes "AUTH_AWS")) opts.auth_aws;
    skip_crypt_shared = flag_of (environ (codes "SKIP_CRYPT_SHARED")) opts.skip_crypt_shared;
    install_legacy_shell =
        flag_of (environ (codes "INSTALL_LEGACY_SHELL")) opts.install_legacy_shell;
    disable_test_commands =
        flag_of (environ (codes "DISABLE_TEST_COMMANDS")) opts.disable_test_commands;
    storage_engine = text_of (environ (codes "STORAGE_ENGINE")) opts.storage_engine;
    require_api_version = flag_of (environ (codes "REQUIRE_API_VERSION")) opts.require_api_version;
    existing_binaries_dir =
        text_of (environ (codes "EXISTING_BINARIES_DIR")) opts.existing_binaries_dir;
    tls_pem_key_file = text_of (environ (codes "TLS_PEM_KEY_FILE")) opts.tls_pem_key_file;
    tls_ca_file = text_of (environ (codes "TLS_CA_FILE")) opts.tls_ca_file;
    tls_allow_invalid_certificates =
        flag_of (environ (codes "TLS_ALLOW_INVALID_CERTIFICATES"))
          opts.tls_allow_invalid_certificates;
    arch = text_of (environ (codes "ARCH")) opts.arch;
    otel = flag_of (environ (codes "OTEL")) opts.otel;
    mongo_orchestration_home =
        text_of (environ (codes "MONGO_ORCHESTRATION_HOME")) opts.mongo_orchestration_home;
    mongodb_binaries = text_of (environ (codes "MONGODB_BINARIES")) opts.mongodb_binaries;
    tls_cert_key_file = text_of (environ (codes "TLS_CERT_KEY_FILE")) opts.tls_cert_key_file;
  }

abbrev not_none : Option Text → Text → Option Text
not_none none d = some d
not_none (some t) d = some t

balanced_topology : Options → Option Text
balanced_topology opts =
    if not (is_set opts.topology) && opts.load_balancer
    then some (codes "sharded_cluster")
    else opts.topology

topology_of : Option Text → Text
topology_of none = codes "server"
topology_of (some []) = codes "server"
topology_of (some (c ∷ s)) = if text_eq (c ∷ s) (codes "standalone") then codes "server" else c ∷ s

-- What `run` takes for the options that are not given.
unfoldable pub with_defaults : Text → Options → Options
unfolding balanced_topology topology_of
with_defaults drivers_tools opts = record opts {
  mongo_orchestration_home =
      not_none opts.mongo_orchestration_home (drivers_tools ++ codes "/.evergreen/orchestration");
  mongodb_binaries = not_none opts.mongodb_binaries (drivers_tools ++ codes "/mongodb/bin");
  topology = some (topology_of (balanced_topology opts));
  auth = opts.auth_aws || opts.auth;
  orchestration_file =
      if opts.auth_aws then some (codes "auth-aws.json") else opts.orchestration_file;
  version = some (
      or_default opts.version (if opts.local_atlas then codes "latest" else codes "latest-stable"));
}

-- `get_options` with the command `run`, from what argparse gives.
unfoldable pub run_options : Environment → Text → Options → Options
run_options environ drivers_tools parsed = with_defaults drivers_tools (override environ parsed)

-- What stands behind the first `/cygdrive/` that a `/` follows later on the line, and in front of it.
drive_of : Text × Option Text → Option (Text × Text)
drive_of (drive, none) = none
drive_of (drive, some behind) = if any (λ c. c == 10) drive then none else some (drive, behind)

cygdrive : Text → Text → Option (Text × Text × Text)
unfolding drive_of
cygdrive front [] = none
cygdrive front (c ∷ s) = elim (expect_all (codes "/cygdrive/") (c ∷ s)) [
  | none ↦ cygdrive (front ++ c ∷ []) s
  | some rest ↦ (elim (drive_of (cut b'/' rest)) [
    | none ↦ cygdrive (front ++ c ∷ []) s
    | some (drive, behind) ↦ some (front, drive, behind)
  ])
]

-- re.sub("/cygdrive/(.*?)(/)", r"\1://", path, count=1)
unfoldable pub without_cygdrive : Text → Text
unfolding cygdrive
without_cygdrive path = elim (cygdrive [] path) [
  | none ↦ path
  | some (front, drive, behind) ↦ front ++ drive ++ codes "://" ++ behind
]

-- `normalize_path`: on Windows, given how `as_posix` spells a path there.
unfoldable pub normalize_path : Bool → (Text → Text) → Text → Text
normalize_path windows as_posix path = if windows then without_cygdrive (as_posix path) else path
