-- ===== src/Runner/Cluster.antt =====
-- `_get_cluster_options` of orchestration/mongodb_runner.py, with the arguments that it puts together.
use drivers_evergreen_tools.Common.{
  Bool, List, [], ◌∷◌, ◌++◌, Option, none, some, map, if◌then◌else◌, Result, ok, raise, ◌>>=◌,
}
use drivers_evergreen_tools.Common.Text.{Text, codes, text_eq}
use drivers_evergreen_tools.Runner.{
  Scalar, Error, no_key, Input, Topology, standalone, replset, sharded, Output, Shard, append_arg,
  handle_proc_params, top_level, with_params, rs_member, blank_config, shard_loop,
}

required : Text → Option Text → Result Error Text
required key none = raise (no_key key)
required key (some value) = ok value

topology_of : Text → Topology
topology_of name =
    if text_eq name (codes "replica_set")
    then replset
    else if text_eq name (codes "sharded_cluster")
    then sharded
    else standalone

tls_key : Text → Text
tls_key key =
    if text_eq key (codes "sslPEMKeyFile")
    then codes "tlsCertificateKeyFile"
    else if text_eq key (codes "sslCAFile")
    then codes "tlsCAFile"
    else key

tls_args : List (Text × Scalar) → List Text → List Text
unfolding tls_key
tls_args [] args = args
tls_args ((key, value) ∷ params) args = tls_args params (append_arg args (tls_key key) value)

-- An empty login is none.
users_of : Option Text → Option Text → Result Error (List (Text × Text))
unfolding required
users_of none password = ok []
users_of (some []) password = ok []
users_of (some (c ∷ login)) password = do
  secret ← required (codes "password") password
  ok ((c ∷ login, secret) ∷ [])

topology_args : Topology → Input → List Text → Result Error (List Text)
unfolding required
topology_args standalone input args = ok (with_params input.input_proc_params args)
topology_args sharded input args = ok args
topology_args replset input args = do
  id ← required (codes "id") input.id
  ok (args ++ codes "--replSet" ∷ id ∷ [])

shards_of : Topology → Input → Result Error (Option (List Shard))
shards_of sharded input = do shards ← shard_loop input.shards (blank_config ∷ []); ok (some shards)
shards_of standalone input = ok none
shards_of replset input = ok none

-- The arguments that are added last: the list in the output is the same list.
socket_args : Bool → Bool → List Text → List Text
socket_args static windows args =
    if static
    then args
    else if windows
    then args
    else args ++ codes "--unixSocketPrefix" ∷ codes "/tmp" ∷ []

-- The output but for the id and the paths of this run; `key_file` is where the auth key is.
pub get_cluster_options : Bool → Bool → Text → Text → Input → Result Error Output
unfolding topology_of tls_args users_of topology_args shards_of socket_args
get_cluster_options static windows name key_file input = do
  let topology = topology_of name
  args ← topology_args topology input (top_level key_file input.items [])
  shards ← shards_of topology input
  users ← users_of input.login input.password
  ok record {
    topology = topology;
    args = socket_args static windows (tls_args input.ssl_params args);
    users = users;
    rs_members = elim topology [
      | standalone ↦ none
      | replset ↦ some (map rs_member input.members)
      | sharded ↦ none
    ];
    mongos_args = elim topology [
      | standalone ↦ none
      | replset ↦ none
      | sharded ↦ some (map (λ router. handle_proc_params router []) input.routers)
    ];
    out_shards = shards;
    api_version = input.require_api_version;
  }
