-- ===== src/Orchestration/Config.antt =====
-- `get_orchestration_data` of drivers_orchestration.py. The file and the parsing of JSON are arguments;
-- the directories are those that `handle_docker_config` makes.
pub mod Requested
use drivers_evergreen_tools.Common.{
  ℕ, zero, suc, ◌-◌, ◌≡◌, Bool, true, false, ◌&&◌, ◌||◌, not, List, [], ◌∷◌, ◌++◌, Option, none,
  some, length, if◌then◌else◌, Result, ok, raise,
}
use drivers_evergreen_tools.Common.Exec.{Exec, pure, stop, ◌>>=◌, ◌>>◌}
use drivers_evergreen_tools.Common.Text.{Text, codes, text_eq}
use drivers_evergreen_tools.Mongodl.Url.{is_prefix}
use drivers_evergreen_tools.Orchestration.Json.{
  Value, null, flag, number, text, arr, obj, Fields, get, put, is_some,
}
use drivers_evergreen_tools.Orchestration.Docker as Docker
use drivers_evergreen_tools.Orchestration.Docker.{Dirs, handle_docker_config}
use drivers_evergreen_tools.Orchestration.Options.{Options, Environment, is_set, or_default}

pub data Error : Type 0 where
  no_file : Text → Error
  bad_json : Error
  one_tls_file : Error
  no_api_version : Error
  no_ssl_params : Error
  not_an_object : Error
  docker : Docker.Error → Error

-- The text is passed over as long as `skip` characters of an occurrence are left.
replace_from : ℕ → Text → Text → Text → Text
replace_from skip old new [] = []
replace_from (suc skip) old new (c ∷ s) = replace_from skip old new s
replace_from zero old new (c ∷ s) =
    let behind = replace_from (length old - 1) old new s in
    let rest = replace_from 0 old new s in if is_prefix old (c ∷ s) then new ++ behind else c ∷ rest

-- `text.replace(old, new)`, for an `old` that is not empty.
unfoldable pub replace : Text → Text → Text → Text
unfolding replace_from
replace old new s = replace_from 0 old new s

base_name : Options → Text
base_name opts =
    (if opts.auth then codes "auth" else codes "basic") ++ (if opts.ssl then codes "-ssl" else [])

-- The name of the orchestration file that is not given.
unfoldable pub implicit_file : Options → Text
unfolding base_name
implicit_file opts =
    if opts.load_balancer
    then base_name opts ++ codes "-load-balancer.json"
    else if opts.disable_test_commands
    then codes "disableTestCommands.json"
    else or_default opts.storage_engine (base_name opts) ++ codes ".json"

-- `Path(home) / name`, for names without redundant slashes.
abbrev pub under : Text → Text → Text
under [] name = name
under (c ∷ home) name = (c ∷ home) ++ b'/' ∷ name

unfoldable pub orchestration_path : Options → Text
unfolding implicit_file
orchestration_path opts = under (or_default opts.mongo_orchestration_home []) (
    codes "configs/"
    ++ (or_default opts.topology []
        ++ (codes "s/" ++ or_default opts.orchestration_file (implicit_file opts))))

abbrev x509gen : Text
x509gen = codes "ABSOLUTE_PATH_REPLACEMENT_TOKEN/.evergreen/x509gen"

-- What the code that reads the configuration finds outside.
pub record Host : Type 0 where
  pub read_text : Text → Option Text
  -- json.loads; none where the text is no JSON object
  pub loads : Text → Option Fields
  pub docker_running : Bool
  pub drivers_tools : Text
  pub spelled : Text → Text

module _ (host : Host) where
  -- The tls configuration in the file.
  with_tls_files : Options → Text → Result Error Text
  unfolding replace
  with_tls_files opts t =
      let pem = is_set opts.tls_pem_key_file in
      let ca = is_set opts.tls_ca_file in
      if not (pem || ca)
      then ok t
      else if not (pem && ca)
      then raise one_tls_file
      else ok (
          replace (x509gen ++ codes "/ca.pem") (host.spelled (or_default opts.tls_ca_file [])) (
            replace (x509gen ++ codes "/server.pem")
              (host.spelled (or_default opts.tls_pem_key_file [])) t))

  parsed : Option Fields → Exec Dirs Error Fields
  parsed none = stop bad_json
  parsed (some fs) = pure fs

  text_read : Text → Option Text → Exec Dirs Error Text
  text_read path none = stop (no_file path)
  text_read path (some t) = pure t

  lifted : Result Error Text → Exec Dirs Error Text
  lifted (ok t) = pure t
  lifted (raise e) = stop e

  unfoldable pub with_api_version : Options → Fields → Exec Dirs Error Fields
  with_api_version opts fs =
      if not opts.require_api_version
      then pure fs
      else if text_eq (or_default opts.topology []) (codes "replica_set")
      then stop no_api_version
      else pure (put (codes "requireApiVersion") (text (codes "1")) fs)

  invalid_allowed : Fields → Option Value → Exec Dirs Error Fields
  invalid_allowed fs (some (obj params)) = pure (
      put (codes "sslParams") (obj (put (codes "tlsAllowInvalidCertificates") (flag true) params))
        fs)
  invalid_allowed fs none = stop no_ssl_params
  invalid_allowed fs (some null) = stop not_an_object
  invalid_allowed fs (some (flag b)) = stop not_an_object
  invalid_allowed fs (some (number t)) = stop not_an_object
  invalid_allowed fs (some (text t)) = stop not_an_object
  invalid_allowed fs (some (arr xs)) = stop not_an_object

  unfoldable pub with_invalid_certificates : Options → Fields → Exec Dirs Error Fields
  unfolding invalid_allowed
  with_invalid_certificates opts fs =
      if opts.tls_allow_invalid_certificates
      then invalid_allowed fs (get (codes "sslParams") fs)
      else pure fs

  docker_error : Result Docker.Error Fields × Dirs → Result Error Fields × Dirs
  docker_error (ok fs, dirs) = (ok fs, dirs)
  docker_error (raise e, dirs) = (raise (docker e), dirs)

  for_docker : Fields → Exec Dirs Error Fields
  unfolding docker_error
  for_docker fs dirs =
      if host.docker_running then docker_error (handle_docker_config fs dirs) else (ok fs, dirs)

  unfoldable pub get_orchestration_data : Options → Exec Dirs Error Fields
  unfolding text_read lifted with_tls_files parsed for_docker orchestration_path
  get_orchestration_data opts = do
    t ← text_read (orchestration_path opts) (host.read_text (orchestration_path opts))
    t' ← lifted (with_tls_files opts t)
    fs ← parsed (
        host.loads
          (replace (codes "ABSOLUTE_PATH_REPLACEMENT_TOKEN") (host.spelled host.drivers_tools) t'))
    fs' ← with_api_version opts fs
    fs'' ← with_invalid_certificates opts fs'
    for_docker fs''
