-- ===== src/Orchestration/Otel.antt =====
-- The export of traces: orchestration/otel.py. A directory is made by naming it: the model keeps the
-- names, in order, and no disk that may be full. The text that `str` gives for a list or a dict,
-- and the output of `mongod --version`, are arguments.
pub mod Parameters
pub mod Configured
pub mod Versions
use drivers_evergreen_tools.Common.{
  ℕ, ◌≡◌, Bool, true, false, ◌&&◌, ◌||◌, not, List, [], ◌∷◌, ◌++◌, Option, none, some, any, ltb,
  ◌==◌, if◌then◌else◌, Result, ok, raise,
}
use drivers_evergreen_tools.Common.Exec.{Exec, pure, stop, ◌>>=◌, ◌>>◌}
use drivers_evergreen_tools.Common.Text.{Text, codes, text_eq}
use drivers_evergreen_tools.Common.Text.Decimal.{span_digits, value}
use drivers_evergreen_tools.Common.Text.Regex.{expect_all}
use drivers_evergreen_tools.Mongodl.Pattern.{suffixes, parts_of, join}
use drivers_evergreen_tools.Mongodl.Target.{lower}
use drivers_evergreen_tools.Mongodl.Url.{is_prefix}
use drivers_evergreen_tools.Orchestration.Json.{
  Value, null, flag, number, text, arr, obj, Items, nil, cons, Fields, end, field, get, put,
  is_some, has, is_member, members, refill,
}
use drivers_evergreen_tools.Orchestration.Json.Each.{each}
use drivers_evergreen_tools.Orchestration.Options.{Options, is_set, or_default}

-- ValueError, but for the last: a member whose "setParameter" is no object, or whose port is one.
pub data Error : Type 0 where
  no_members : Error
  no_port : Error
  conflicting : List Text → Error
  docker : Error
  atlas : Error
  old_version : Text → Error
  no_version_output : Error
  no_version_line : Error
  old_binary : ℕ → ℕ → Error
  not_an_object : Error

-- OTEL_SAMPLING_JSON, OTEL_EXTERNAL_TRACING_JSON
abbrev pub otel_sampling_json : Text
otel_sampling_json =
    codes
      "{\"defaultSampling\":{\"samplingFactor\":1.0,\"tokenBucketRateLimit\":{\"refillRate\":1000.0,\"maxTokens\":1000}}}"

abbrev pub otel_external_tracing_json : Text
otel_external_tracing_json =
    codes "{\"tokenBucketRateLimit\":{\"refillRate\":1000.0,\"maxTokens\":1000}}"

-- `str` of a value that is no list and no object.
unfoldable pub str : Value → Option Text
str null = some (codes "None")
str (flag true) = some (codes "True")
str (flag false) = some (codes "False")
str (number t) = some t
str (text t) = some t
str (arr xs) = none
str (obj fs) = none

-- `Path(root) / name`, as the text that `normalize_path` leaves on POSIX.
unfoldable pub child : Text → Text → Text
child root [] = root
child root (c ∷ s) = if c == b'/' then c ∷ s else root ++ b'/' ∷ c ∷ s

pub keys : Fields → List Text
keys end = []
keys (field k v fs) = k ∷ keys fs

unfoldable pub is_conflict : Text → Bool
is_conflict k =
    is_prefix (codes "opentelemetry") (lower k)
    || (text_eq k (codes "featureFlagTracing") || text_eq k (codes "featureFlagOtelTraceSampling"))

unfoldable pub conflicts : List Text → List Text
conflicts [] = []
conflicts (k ∷ ks) = let rest = conflicts ks in if is_conflict k then k ∷ rest else rest

abbrev pub empty_or : Option Value → Value
empty_or none = obj end
empty_or (some v) = v

-- The parameters that are set.
unfoldable pub traced : Text → Fields → Fields
traced dir set_param = put (codes "openTelemetryTracingFileFlushCount") (number (codes "1")) (
    put (codes "openTelemetryExternalTracing") (text otel_external_tracing_json) (
      put (codes "openTelemetryTracingSampling") (text otel_sampling_json) (
        put (codes "featureFlagOtelTraceSampling") (text (codes "true"))
          (put (codes "opentelemetryTraceDirectory") (text dir) set_param))))

abbrev pub Dirs : Type 0
Dirs = List Text

makedirs : Text → Exec Dirs Error (Unit {0})
makedirs dir dirs = (ok tt, dirs ++ dir ∷ [])

pub port_of : Option Value → Exec Dirs Error Text
port_of none = stop no_port
port_of (some v) = elim (str v) [ none ↦ stop not_an_object | some t ↦ pure t ]

set_parameters : Text → Fields → List Text → Fields → Exec Dirs Error Fields
unfolding traced
set_parameters dir set_param [] member =
    pure (put (codes "setParameter") (obj (traced dir set_param)) member)
set_parameters dir set_param (k ∷ ks) member = stop (conflicting (k ∷ ks))

pub with_parameters : Text → Value → Fields → Exec Dirs Error Fields
unfolding set_parameters keys conflicts
with_parameters dir (obj set_param) member =
    set_parameters dir set_param (conflicts (keys set_param)) member
with_parameters dir null member = stop not_an_object
with_parameters dir (flag b) member = stop not_an_object
with_parameters dir (number t) member = stop not_an_object
with_parameters dir (text t) member = stop not_an_object
with_parameters dir (arr xs) member = stop not_an_object

-- The body of the loop over the members.
unfoldable pub configure : Text → Fields → Exec Dirs Error Fields
unfolding port_of makedirs with_parameters child
configure root member = do
  port ← port_of (get (codes "port") member)
  makedirs (child root port)
  with_parameters (child root port) (empty_or (get (codes "setParameter") member)) member

abbrev pub every_key : Text → Bool
every_key k = false

configure_some : Text → Value → List Fields → Exec Dirs Error Value
configure_some root data' [] = stop no_members
configure_some root data' (m ∷ ms) = do
  ms' ← each (configure root) (m ∷ ms)
  pure (refill every_key data' ms').0

-- `handle_otel_config`
unfoldable pub handle_otel_config : Text → Value → Exec Dirs Error Value
unfolding configure_some
handle_otel_config root data' = configure_some root data' (members every_key data')

run_value : Text × Text → Option (ℕ × Text)
run_value ([], rest) = none
run_value ((d ∷ ds), rest) = some (value 0 (d ∷ ds), rest)

-- `\d+` at the front.
number_at : Text → Option (ℕ × Text)
unfolding run_value
number_at s = run_value (span_digits s)

without_v : Text → Text
without_v [] = []
without_v (c ∷ s) = if c == b'v' then s else c ∷ s

-- The major version of `^v?(\d+)(?:\.(\d+))?`. The minor one does not matter below 9.0.
unfoldable pub major_of : Text → Option ℕ
unfolding number_at without_v
major_of version = elim (number_at (without_v version)) [ none ↦ none | some (n, rest) ↦ some n ]

abbrev below_9 : Option ℕ → Bool
below_9 none = false
below_9 (some n) = ltb n 9

-- `validate_otel_opts`; the flag is DOCKER_RUNNING.
unfoldable pub validate_otel_opts : Bool → Options → Result Error (Unit {0})
validate_otel_opts docker_running opts =
    if not opts.otel
    then ok tt
    else if docker_running
    then raise docker
    else if opts.local_atlas
    then raise atlas
    else if is_set opts.existing_binaries_dir
    then ok tt
    else if below_9 (major_of (or_default opts.version []))
    then raise (old_version (or_default opts.version []))
    else ok tt

minor_behind : Option (ℕ × Text) → Option (ℕ × ℕ)
unfolding number_at
minor_behind none = none
minor_behind (some (major, [])) = none
minor_behind (some (major, (c ∷ s))) =
    if c == b'.'
    then (elim (number_at s) [ none ↦ none | some (minor, rest) ↦ some (major, minor) ])
    else none

version_at : Text → Option (ℕ × ℕ)
unfolding number_at minor_behind
version_at s = elim (expect_all (codes "db version v") s) [
  | none ↦ none
  | some rest ↦ minor_behind (number_at rest)
]

-- `_version_from_mongod_output`
unfoldable pub version_from_mongod_output : Text → Option (ℕ × ℕ)
unfolding version_at
version_from_mongod_output [] = none
version_from_mongod_output (c ∷ s) = elim (version_at (c ∷ s)) [
  | none ↦ version_from_mongod_output s
  | some v ↦ some v
]

judge_version : Option (ℕ × ℕ) → Result Error (Unit {0})
judge_version none = raise no_version_line
judge_version (some (major, minor)) = if ltb major 9 then raise (old_binary major minor) else ok tt

-- `check_mongod_version`, from the output of the binary; none where it does not run.
unfoldable pub check_mongod_version : Option Text → Result Error (Unit {0})
unfolding judge_version
check_mongod_version none = raise no_version_output
check_mongod_version (some output) = judge_version (version_from_mongod_output output)
