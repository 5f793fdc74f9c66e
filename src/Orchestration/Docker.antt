-- ===== src/Orchestration/Docker.antt =====
-- Docker in drivers_orchestration.py: `handle_docker_config` and `get_docker_cmd`. A directory is made
-- by naming it.
pub mod Members
pub mod Routers
use drivers_evergreen_tools.Common.{
  ℕ, ◌≡◌, Bool, true, false, ◌&&◌, ◌||◌, not, List, [], ◌∷◌, ◌++◌, Option, none, some,
  if◌then◌else◌, Result, ok, raise,
}
use drivers_evergreen_tools.Common.Exec.{Exec, pure, stop, ◌>>=◌, ◌>>◌}
use drivers_evergreen_tools.Common.Text.{Text, codes, text_eq}
use drivers_evergreen_tools.Mongodl.Url.{contains}
use drivers_evergreen_tools.Orchestration.Json.{
  Value, null, flag, number, text, arr, obj, Items, nil, cons, Fields, end, field, get, put,
  is_some, has, is_member, members, refill,
}
use drivers_evergreen_tools.Orchestration.Json.Each.{each}
use drivers_evergreen_tools.Orchestration.Otel.{str}
use drivers_evergreen_tools.Orchestration.Options.{Environment, is_set}

-- TypeError or AttributeError, KeyError, UnboundLocalError
pub data Error : Type 0 where
  not_a_container : Error
  no_port : Error
  unbound_item : Error

abbrev pub is_routers : Text → Bool
is_routers key = text_eq key (codes "routers")

is_container : Value → Bool
is_container (arr xs) = true
is_container (obj fs) = true
is_container null = false
is_container (flag b) = false
is_container (number t) = false
is_container (text t) = false

-- Whether `traverse` gets through: a list that it enters has only lists and objects in it.
unfoldable mutual
  unfolding is_container

  pub traversable : Value → Bool
  traversable (arr xs) = traversable_items xs
  traversable (obj fs) = let inside = traversable_fields fs in if is_member fs then true else inside
  traversable null = true
  traversable (flag b) = true
  traversable (number t) = true
  traversable (text t) = true

  pub traversable_items : Items → Bool
  traversable_items nil = true
  traversable_items (cons v xs) = is_container v && (traversable v && traversable_items xs)

  pub traversable_fields : Fields → Bool
  traversable_fields end = true
  traversable_fields (field k v fs) = (is_routers k || traversable v) && traversable_fields fs

abbrev pub Dirs : Type 0
Dirs = List Text

makedirs : Text → Exec Dirs Error (Unit {0})
makedirs dir dirs = (ok tt, dirs ++ dir ∷ [])

-- f"{value}" of a port.
port_of : Option Value → Exec Dirs Error Text
port_of none = stop no_port
port_of (some v) = elim (str v) [ none ↦ stop not_a_container | some t ↦ pure t ]

abbrev pub anywhere : Fields → Fields
anywhere root =
    put (codes "bind_ip") (text (codes "0.0.0.0,::1")) (put (codes "ipv6") (flag false) root)

-- The body of the loop over the members.
unfoldable pub dockered : Fields → Exec Dirs Error Fields
unfolding port_of makedirs
dockered member = do
  port ← port_of (get (codes "port") member)
  makedirs (codes "/tmp/mongo-" ++ port)
  pure (put (codes "dbpath") (text (codes "/tmp/mongo-" ++ port)) (anywhere member))

-- The variable `item` behind the loop.
unfoldable pub last_item : List Fields → Option Fields
last_item [] = none
last_item (m ∷ []) = some m
last_item (m ∷ m' ∷ ms) = last_item (m' ∷ ms)

item_port : Option Fields → Exec Dirs Error Text
unfolding port_of
item_port none = stop unbound_item
item_port (some item) = port_of (get (codes "port") item)

router : Option Fields → Fields → Exec Dirs Error Fields
unfolding item_port
router item root = do
  port ← item_port item
  pure (
      put (codes "logpath") (text (codes "/tmp/mongodb-" ++ (port ++ codes ".log")))
        (anywhere root))

-- The loop over the routers.
unfoldable pub each_router : Option Fields → Items → Exec Dirs Error Items
unfolding router
each_router item nil = pure nil
each_router item (cons (obj fs) xs) = do
  fs' ← router item fs
  xs' ← each_router item xs
  pure (cons (obj fs') xs')
each_router item (cons null xs) = stop not_a_container
each_router item (cons (flag b) xs) = stop not_a_container
each_router item (cons (number t) xs) = stop not_a_container
each_router item (cons (text t) xs) = stop not_a_container
each_router item (cons (arr ys) xs) = stop not_a_container

-- Another value is walked through if it is empty.
routers_of : Option Fields → Value → Exec Dirs Error Value
unfolding each_router
routers_of item (arr xs) = do xs' ← each_router item xs; pure (arr xs')
routers_of item (obj end) = pure (obj end)
routers_of item (text []) = pure (text [])
routers_of item (obj (field k v fs)) = stop not_a_container
routers_of item (text (c ∷ s)) = stop not_a_container
routers_of item null = stop not_a_container
routers_of item (flag b) = stop not_a_container
routers_of item (number t) = stop not_a_container

-- `if "routers" in data`
with_routers : Option Fields → Fields → Option Value → Exec Dirs Error Fields
unfolding routers_of
with_routers item fs none = pure fs
with_routers item fs (some v) = do v' ← routers_of item v; pure (put (codes "routers") v' fs)

top_level : Value → Exec Dirs Error Fields
top_level (obj fs) = pure fs
top_level _ = stop not_a_container

-- `handle_docker_config`
unfoldable pub handle_docker_config : Fields → Exec Dirs Error Fields
unfolding with_routers top_level
handle_docker_config data' = if not (traversable (obj data')) then stop not_a_container else do
  ms ← each dockered (members is_routers (obj data'))
  fs ← top_level (refill is_routers (obj data') ms).0
  with_routers (last_item ms) fs (get (codes "routers") fs)

-- The commands of Docker and Podman on PATH, and whether the daemon answers `info` in time.
command_of : Text → Text
command_of binary = if contains (codes "podman") binary then codes "sudo " ++ binary else binary

unfoldable pub first_available : (Text → Bool) → List (Option Text) → Option Text
unfolding command_of
first_available answers [] = none
first_available answers (none ∷ binaries) = first_available answers binaries
first_available answers (some [] ∷ binaries) = first_available answers binaries
first_available answers (some (c ∷ s) ∷ binaries) =
    let rest = first_available answers binaries in
    if answers (command_of (c ∷ s)) then some (command_of (c ∷ s)) else rest

-- `get_docker_cmd`, for POSIX names of the binaries.
unfoldable pub get_docker_cmd : Environment → (Text → Option Text) → (Text → Bool) → Option Text
get_docker_cmd environ which answers = first_available answers (
    if is_some (environ (codes "GITHUB_ACTION"))
    then which (codes "docker") ∷ which (codes "podman") ∷ []
    else which (codes "podman") ∷ which (codes "docker") ∷ [])
