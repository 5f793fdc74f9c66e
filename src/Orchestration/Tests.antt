-- ===== src/Orchestration/Tests.antt =====
-- Runs of the orchestration, and inputs of its theorems.
use drivers_evergreen_tools.Common.{
  ◌≤◌, ◌≡◌, ◌≢◌, ◌↔◌, refl, String, true, false, List, [], ◌∷◌, ◌++◌, Option, none, some, Both,
  Result, ok, raise,
}
use drivers_evergreen_tools.Common.Exec.{pure, stop as halt, ◌>>=◌}
use drivers_evergreen_tools.Common.Text.{Text, codes, text_eq}
use drivers_evergreen_tools.Mongodl.Target.{lower}
use drivers_evergreen_tools.Mongodl.Url.{is_prefix}
use drivers_evergreen_tools.Orchestration.Json.{
  Value, null, flag, number, arr, obj, Items, nil, cons, Fields, end, field, get, put, members,
  refill,
}
use drivers_evergreen_tools.Orchestration.Json.Each.{each}
use drivers_evergreen_tools.Orchestration.Otel.{
  handle_otel_config, configure, str, child, conflicts, is_conflict, every_key,
  check_mongod_version,
}
use drivers_evergreen_tools.Orchestration.Otel.Configured.{directories, handle_otel_config-Traced}
use drivers_evergreen_tools.Orchestration.Otel.Parameters.{Traced}
use drivers_evergreen_tools.Orchestration.Otel.Versions.{version_line, check_mongod_version_iff}
use drivers_evergreen_tools.Orchestration.Docker.{
  handle_docker_config, dockered, last_item, each_router, is_routers, traversable,
}
use drivers_evergreen_tools.Orchestration.Docker.Routers.{
  handle_docker_config-Dockered, handle_docker_config-LogsTo,
}
use drivers_evergreen_tools.Orchestration.Docker.Members.{port_text}
use drivers_evergreen_tools.Orchestration.Docker.Members.{LogsTo}
use drivers_evergreen_tools.Orchestration.Docker.Members.{Dockered}
use drivers_evergreen_tools.Orchestration.Options.{Options}
use drivers_evergreen_tools.Orchestration.Config as Config
use drivers_evergreen_tools.Orchestration.Config.{
  no_file, get_orchestration_data, orchestration_path, replace,
}
use drivers_evergreen_tools.Orchestration.Config.Requested.{Requested}

abbrev process : String → Fields
process port = field (codes "ipv6") (flag true) (field (codes "port") (number (codes port)) end)

-- Two members, and two routers at other ports.
abbrev sharded : Fields
sharded =
    field (codes "shards") (arr (cons (obj (process "27217")) (cons (obj (process "27218")) nil))) (
      field (codes "routers")
        (arr (cons (obj (process "27017")) (cons (obj (process "27018")) nil))) end)

abbrev fields_or : {E : Type 0} → Result E Fields → Fields
fields_or (ok fs) = fs
fields_or (raise e) = end

abbrev value_or : {E : Type 0} → Result E Value → Value
value_or (ok v) = v
value_or (raise e) = null

abbrev otel : Text
otel = codes "/otel"

abbrev traced_value : Value
traced_value = value_or (handle_otel_config otel (obj sharded) []).0

abbrev traced_dirs : List Text
traced_dirs =
    codes "/otel/27217" ∷ codes "/otel/27218" ∷ codes "/otel/27017" ∷ codes "/otel/27018" ∷ []

traced_run : handle_otel_config otel (obj sharded) [] ≡ (ok traced_value, traced_dirs)
unfolding handle_otel_config configure each members refill get put str child conflicts is_conflict
    text_eq lower is_prefix pure halt ◌>>=◌
traced_run = refl

handle_otel_config-Traced_example :
    (members every_key (obj sharded) ≢ [])
    × Both (Traced otel) (members every_key (obj sharded)) (members every_key traced_value)
    × (traced_dirs ≡ [] ++ directories otel (members every_key (obj sharded)))
    × ((refill every_key traced_value (members every_key (obj sharded))).0 ≡ obj sharded)
handle_otel_config-Traced_example =
    handle_otel_config-Traced otel (obj sharded) traced_value [] traced_dirs traced_run

check_mongod_version_iff_example :
    (check_mongod_version (some (version_line 9 0 (codes "-alpha"))) ≡ ok tt) ↔ (9 ≤ 9)
check_mongod_version_iff_example = check_mongod_version_iff 9 0 (codes "-alpha") refl

abbrev docker_fields : Fields
docker_fields = fields_or (handle_docker_config sharded []).0

abbrev docker_dirs : List Text
docker_dirs = codes "/tmp/mongo-27217" ∷ codes "/tmp/mongo-27218" ∷ []

docker_run : handle_docker_config sharded [] ≡ (ok docker_fields, docker_dirs)
unfolding handle_docker_config dockered each members refill get put str text_eq traversable
    last_item pure halt ◌>>=◌ each_router
docker_run = refl

handle_docker_config-Dockered_example :
    Both Dockered (members is_routers (obj sharded)) (members is_routers (obj docker_fields))
handle_docker_config-Dockered_example =
    handle_docker_config-Dockered sharded docker_fields [] docker_dirs docker_run

abbrev items_or : Option Value → Items
items_or (some (arr xs)) = xs
items_or _ = nil

docker_last : last_item (members is_routers (obj sharded)) ≡ some (process "27218")
unfolding members get text_eq last_item
docker_last = refl

docker_port : port_text (get (codes "port") (process "27218")) ≡ some (codes "27218")
unfolding get text_eq str
docker_port = refl

abbrev docker_routers : Items
docker_routers = items_or (get (codes "routers") docker_fields)

docker_routers_there : get (codes "routers") docker_fields ≡ some (arr docker_routers)
unfolding handle_docker_config dockered each members refill get put str text_eq traversable
    last_item pure halt ◌>>=◌ each_router
docker_routers_there = refl

handle_docker_config-LogsTo_example : LogsTo (codes "27218") docker_routers
handle_docker_config-LogsTo_example =
    handle_docker_config-LogsTo sharded docker_fields [] docker_dirs (process "27218")
      (codes "27218") docker_routers docker_run docker_last docker_port docker_routers_there

abbrev pub no_options : Options
no_options = record {
  verbose = false;
  quiet = false;
  version = some (codes "8.0");
  topology = some (codes "server");
  auth = false;
  ssl = true;
  local_atlas = false;
  mongodb_runner = false;
  orchestration_file = none;
  load_balancer = false;
  auth_aws = false;
  skip_crypt_shared = true;
  install_legacy_shell = true;
  disable_test_commands = false;
  storage_engine = none;
  require_api_version = true;
  existing_binaries_dir = none;
  tls_pem_key_file = none;
  tls_ca_file = none;
  tls_allow_invalid_certificates = true;
  arch = none;
  otel = false;
  mongo_orchestration_home = some (codes "/home");
  mongodb_binaries = some (codes "/bin");
  tls_cert_key_file = none;
}

abbrev pub config_host : Config.Host
config_host = record {
  read_text = λ path. some (codes "{}");
  loads = λ t. some (field (codes "sslParams") (obj end) end);
  docker_running = false;
  drivers_tools = codes "/tools";
  spelled = λ path. path;
}

abbrev config_fields : Fields
config_fields = fields_or (get_orchestration_data config_host no_options []).0

tls_names : orchestration_path no_options ≡ codes "/home/configs/servers/basic-ssl.json"
unfolding orchestration_path
tls_names = refl

replaced : replace (codes "aa") (codes "b") (codes "aaaxa") ≡ codes "baxa"
unfolding replace is_prefix
replaced = refl
