-- ===== src/Runner/Tests.antt =====
-- Runs of the installation, and of the options of a cluster at concrete configurations.
use drivers_evergreen_tools.Common.{
  ◌≡◌, ◌⊎◌, ◌++◌, if◌then◌else◌, refl, true, false, List, [], ◌∷◌, none, some, ok,
}
use drivers_evergreen_tools.Common.Text.{Text, codes, text_eq}
use drivers_evergreen_tools.Runner.{
  flag, dict, scalar, Params, Member, Shard, append_arg, format_value, handle_proc_params,
  read_shard, remove,
}
use drivers_evergreen_tools.Common.Exec.{◌>>=◌}
use drivers_evergreen_tools.Common.Text.Decimal.{span_digits}
use drivers_evergreen_tools.Runner.Install.{
  Host, pin_dir, pin_group, made_dir, copied_pins, ran_npm_ci, installed_node, install_in,
  install_mongodb_runner, mongodb_runner_supported,
}
use drivers_evergreen_tools.Runner.Install.Pins.{IsMinor, pin_dir-IsMinor}
use drivers_evergreen_tools.Runner.Install.Supported.{Verdict, mongodb_runner_supported-Verdict}
use drivers_evergreen_tools.Runner.Shards.{read_all}

abbrev params : Params
params =
    (codes "ipv6", scalar (flag true))
    ∷ (codes "setParameter", dict ((codes "a", flag false) ∷ []))
    ∷ []

params_args :
    handle_proc_params params []
    ≡ codes "--ipv6"
      ∷ codes "--setParameter"
      ∷ codes "a=false"
      ∷ codes "--setParameter"
      ∷ codes "enableTestCommands=true"
      ∷ []
unfolding handle_proc_params append_arg format_value text_eq
params_args = refl

abbrev member : Text → Member
member name = record { rs_params = none; proc_params = some ((name, scalar (flag true)) ∷ []) }

abbrev shards : List (List Member)
shards = (member (codes "shardsvr") ∷ []) ∷ (member (codes "configsvr") ∷ []) ∷ []

abbrev one_shard : Shard
one_shard = record {
  shard_args = [];
  shard_members = (codes "--setParameter" ∷ codes "enableTestCommands=true" ∷ []) ∷ [];
}

read_shards : read_all shards ≡ ok ((false, one_shard) ∷ (true, one_shard) ∷ [])
unfolding read_all read_shard handle_proc_params append_arg remove text_eq
read_shards = refl

-- A host whose npm works only behind the installation of Node.
abbrev host : Host
host = record {
  pins = codes "pins";
  tmpdir = codes "/tmp";
  is_dir = λ dir. text_eq dir (codes "pins/7.0");
  pinned_versions = λ dir. ok (codes "5.9.1", codes "6.1.0");
  pin_digest = λ dir. ok (codes "abc");
  shim_suffix = [];
  exists_path = λ file. false;
  has_node = false;
  copy_error = none;
  npm_ci = λ own. if own then none else some (codes "npm was not found on PATH");
  install_node = true;
  use_dev_runner = false;
}

latest_minor : pin_group (codes "v7.0.5-rc1") ≡ some (codes "7.0")
unfolding pin_group span_digits
latest_minor = refl

no_parent : pin_group (codes "7.0/../x") ≡ none
unfolding pin_group span_digits
no_parent = refl

installs : install_mongodb_runner host (codes "7.0.5") [] ≡ (
  ok (codes "/tmp/mongodb-runner-5.9.1-mongodb-6.1.0-abc/node_modules/.bin/mongodb-runner"),
  made_dir (codes "/tmp/mongodb-runner-5.9.1-mongodb-6.1.0-abc")
      ∷ copied_pins (codes "pins/7.0")
      ∷ ran_npm_ci
      ∷ installed_node
      ∷ ran_npm_ci
      ∷ [],
)
unfolding install_mongodb_runner install_in pin_dir pin_group text_eq span_digits ◌>>=◌
installs = refl

pin_dir-IsMinor_example :
    (name : Text) × (pin_dir host (codes "7.0.5") ≡ codes "pins" ++ b'/' ∷ name)
    × ((name ≡ codes "default")
        ⊎ (IsMinor name × (host.is_dir (codes "pins" ++ b'/' ∷ name) ≡ true)))
pin_dir-IsMinor_example = pin_dir-IsMinor host (codes "7.0.5")

mongodb_runner_supported-Verdict_example :
    Verdict host (codes "7.0.5") [] (mongodb_runner_supported host (codes "7.0.5") []).0
mongodb_runner_supported-Verdict_example =
    mongodb_runner_supported-Verdict host (codes "7.0.5") [] refl
