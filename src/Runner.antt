-- ===== src/Runner.antt =====
-- The options of a cluster: `_handle_proc_params` and `_get_cluster_options` of
-- orchestration/mongodb_runner.py. A value of the configuration is a truth value, or the text that
-- `str` gives for it.
pub mod Cluster
pub mod Install
pub mod Params
pub mod Shards
pub mod Tests
use drivers_evergreen_tools.Common.{
  ℕ, Bool, true, false, ◌||◌, not, List, [], ◌∷◌, ◌++◌, Option, none, some, any, if◌then◌else◌,
  Result, ok, raise, ◌>>=◌,
}
use drivers_evergreen_tools.Common.Text.{Text, codes, text_eq}

pub data Scalar : Type 0 where
  flag : Bool → Scalar
  plain : Text → Scalar

pub data Param : Type 0 where
  scalar : Scalar → Param
  dict : List (Text × Scalar) → Param

abbrev pub Params : Type 0
Params = List (Text × Param)

-- KeyError
pub data Error : Type 0 where
  no_key : Text → Error

pub record RsParams : Type 0 where
  pub tags : Option Text
  pub arbiter_only : Bool
  pub priority : Option Text

pub record Member : Type 0 where
  pub rs_params : Option RsParams
  pub proc_params : Option Params

-- A configuration: its items in order, with the parts that are not scalars beside them.
pub record Input : Type 0 where
  pub items : List (Text × Scalar)
  pub id : Option Text
  pub members : List Member
  pub shards : List (List Member)
  pub routers : List Params
  pub input_proc_params : Option Params
  pub ssl_params : List (Text × Scalar)
  pub login : Option Text
  pub password : Option Text
  pub require_api_version : Option Text

pub data Topology : Type 0 where
  standalone replset sharded : Topology

pub record RsMember : Type 0 where
  pub rs_args : List Text
  pub rs_tags : Option Text
  pub rs_priority : Text
  pub is_arbiter : Bool

pub record Shard : Type 0 where
  pub shard_args : List Text
  pub shard_members : List (List Text)

pub record Output : Type 0 where
  pub topology : Topology
  pub args : List Text
  pub users : List (Text × Text)
  pub rs_members : Option (List RsMember)
  pub mongos_args : Option (List (List Text))
  pub out_shards : Option (List Shard)
  pub api_version : Option Text

abbrev option_name : Text → Text
option_name key = codes "--" ++ key

-- `_format_value`
unfoldable pub format_value : Scalar → Text
format_value (flag true) = codes "true"
format_value (flag false) = codes "false"
format_value (plain s) =
    if text_eq s (codes "True")
    then codes "true"
    else if text_eq s (codes "False")
    then codes "false"
    else s

-- `_append_arg`
unfoldable pub append_arg : List Text → Text → Scalar → List Text
append_arg args key (flag true) = args ++ option_name key ∷ []
append_arg args key (flag false) = args
append_arg args key (plain s) = args ++ option_name key ∷ format_value (plain s) ∷ []

-- The loop over the keys of a dictionary.
sub_params : Text → List (Text × Scalar) → Bool × List Text → Bool × List Text
sub_params key [] (found, args) = (found, args)
sub_params key ((subkey, value) ∷ params) (found, args) = sub_params key params (
  found || text_eq subkey (codes "enableTestCommands"),
  args ++ option_name key ∷ (subkey ++ codes "=" ++ format_value value) ∷ [],
)

proc_params_loop : Params → Bool × List Text → Bool × List Text
unfolding sub_params
proc_params_loop [] (found, args) = (found, args)
proc_params_loop ((key, dict values) ∷ params) state =
    proc_params_loop params (sub_params key values state)
proc_params_loop ((key, scalar value) ∷ params) (found, args) =
    proc_params_loop params (found, append_arg args key value)

unfoldable pub handle_proc_params : Params → List Text → List Text
unfolding proc_params_loop
handle_proc_params params args =
    let (found, all_args) = proc_params_loop params (false, args) in
    if not found
    then all_args ++ codes "--setParameter" ∷ codes "enableTestCommands=true" ∷ []
    else all_args

skip_keys : List Text
skip_keys =
    codes "shards"
    ∷ codes "requireApiVersion"
    ∷ codes "sslParams"
    ∷ codes "routers"
    ∷ codes "members"
    ∷ codes "login"
    ∷ codes "password"
    ∷ codes "id"
    ∷ codes "name"
    ∷ codes "procParams"
    ∷ []

-- The top-level items; `key_file` is where the auth key was written.
top_level : Text → List (Text × Scalar) → List Text → List Text
unfolding skip_keys
top_level key_file [] args = args
top_level key_file ((key, value) ∷ items) args =
    if any (text_eq key) skip_keys
    then top_level key_file items args
    else if text_eq key (codes "auth_key")
    then top_level key_file items (args ++ codes "--keyFile" ∷ key_file ∷ [])
    else top_level key_file items (append_arg args key value)

with_params : Option Params → List Text → List Text
with_params none args = args
with_params (some params) args = handle_proc_params params args

or_priority : Text → Option Text → Text
or_priority default none = default
or_priority default (some priority) = priority

rs_member : Member → RsMember
unfolding with_params or_priority
rs_member member = elim member.rs_params [
  | none ↦ record {
    rs_args = with_params member.proc_params [];
    rs_tags = none;
    rs_priority = codes "1";
    is_arbiter = false;
  }
  | some rs ↦ record {
    rs_args = with_params member.proc_params [];
    rs_tags = rs.tags;
    rs_priority = or_priority (if rs.arbiter_only then codes "0" else codes "1") rs.priority;
    is_arbiter = rs.arbiter_only;
  }
]

-- `list.remove(item)` of an item that is in the list.
unfoldable pub remove : Text → List Text → List Text
remove item [] = []
remove item (a ∷ args) = if text_eq a item then args else a ∷ remove item args

-- The arguments of a member of a shard, and whether it is a config server.
member_args : List Text → Bool × List Text
member_args args =
    if any (text_eq (codes "--shardsvr")) args
    then (false, remove (codes "--shardsvr") args)
    else if any (text_eq (codes "--configsvr")) args
    then (true, remove (codes "--configsvr") args)
    else (false, args)

one_member : Option Params → Result Error (Bool × List Text)
unfolding member_args
one_member none = raise (no_key (codes "procParams"))
one_member (some params) = ok (member_args (handle_proc_params params []))

-- A shard, and whether it is the config server.
unfoldable pub read_shard : List Member → Result Error (Bool × Shard)
unfolding one_member
read_shard [] = ok (false, record { shard_args = []; shard_members = [] })
read_shard (member ∷ members) = do
  one ← one_member member.proc_params
  rest ← read_shard members
  ok (one.0 || rest.0, record { shard_args = []; shard_members = one.1 ∷ (rest.1).shard_members })

-- The first place is the config server's.
put_shard : Bool → Shard → List Shard → List Shard
put_shard true shard [] = shard ∷ []
put_shard true shard (config ∷ shards) = shard ∷ shards
put_shard false shard shards = shards ++ shard ∷ []

unfoldable pub shard_loop : List (List Member) → List Shard → Result Error (List Shard)
unfolding put_shard
shard_loop [] shards = ok shards
shard_loop (members ∷ rest) shards = do
  read ← read_shard members
  shard_loop rest (put_shard read.0 read.1 shards)

abbrev pub blank_config : Shard
blank_config = record { shard_args = []; shard_members = [] ∷ [] }
