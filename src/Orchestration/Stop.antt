-- ===== src/Orchestration/Stop.antt =====
-- `stop` of drivers_orchestration.py: what it ends, in the order in which it does. The processes, the
-- answers of Docker and the parsing of JSON are arguments; the state is the files that `stop`
-- reads and the list of what it has done.
pub mod Complete
pub mod Targets
use drivers_evergreen_tools.Common.{
  ℕ, zero, suc, ◌≡◌, Bool, true, false, ◌&&◌, ◌||◌, not, List, [], ◌∷◌, ◌++◌, Option, none, some,
  any, ◌==◌, if◌then◌else◌, Result, ok, raise,
}
use drivers_evergreen_tools.Common.Exec.{Exec, pure, stop as halt, ◌>>=◌, ◌>>◌}
use drivers_evergreen_tools.Common.Text.{Text, codes, text_eq, split}
use drivers_evergreen_tools.Common.Text.Decimal.{span_digits, value}
use drivers_evergreen_tools.Mongodl.Pattern.{suffixes, split_at}
use drivers_evergreen_tools.Mongodl.Url.{contains}

pub data Error : Type 0 where
  bad_pid : Error
  no_key : Error
  bad_line : Error
  -- psutil.AccessDenied, which the last loop does not catch
  access_denied : Error

-- What is done to the host.
pub data Action : Type 0 where
  terminate : ℕ → Action
  kill : ℕ → Action
  remove_tree : Text → Action
  shutdown_container : Text → Action

pub record State : Type 0 where
  pub pid_file : Option Text
  pub out_log : Option Text
  pub container_file : Option Text
  pub done : List Action

-- What psutil tells of a process: a value, NoSuchProcess, or AccessDenied.
pub data Told (A : Type 0) : Type 0 where
  told : A → Told A
  gone denied : Told A

pub record Process : Type 0 where
  pub pid : ℕ
  pub cmdline : Told (List Text)
  pub name : Told Text

pub record Server : Type 0 where
  pub server_pid : ℕ
  pub db_path : Text

-- `json.loads` of out.log: no JSON, or a value that is false; a cluster of mongodb-runner; another
-- value.
pub data Log : Type 0 where
  no_cluster : Log
  cluster : List Server → List (List Server) → Log
  other : Log

-- How a process takes `terminate`: it ends in time, or it stays and takes `kill`; or `terminate`
-- itself raises, or the wait or the `kill` behind it.
pub data Answer : Type 0 where
  ends stays refuses unkillable : Answer

pub record Host : Type 0 where
  pub pid_exists : ℕ → Bool
  pub answer : ℕ → Answer
  pub exists_path : Text → Bool
  pub loads : Text → Log
  pub processes : List Process
  pub docker : Option Text
  -- The output of `docker ps`; none where it fails.
  pub images : Option Text

abbrev pub M : Type 0
M = Exec State Error (Unit {0})

act : Action → M
act a s = (ok tt, record s { done = s.done ++ a ∷ [] })

module _ (host : Host) where
  by_answer : ℕ → Answer → M
  unfolding act
  by_answer p ends = act (terminate p)
  by_answer p stays = act (terminate p) >> act (kill p)
  by_answer p refuses = pure tt
  by_answer p unkillable = act (terminate p)

  -- `shutdown_proc`: an exception is logged and goes no further.
  unfoldable pub shutdown_proc : ℕ → M
  unfolding by_answer
  shutdown_proc p = by_answer p (host.answer p)

  shutdown_existing : ℕ → M
  unfolding shutdown_proc
  shutdown_existing p = if host.pid_exists p then shutdown_proc p else pure tt

  -- int(text.strip()), for the digits that the server writes.
  unfoldable pub int_of : List Text → Option ℕ
  int_of (word ∷ []) = whole (span_digits word)
    where
      whole : Text × Text → Option ℕ
      whole ((d ∷ ds), []) = some (value 0 (d ∷ ds))
      whole _ = none
  int_of _ = none

  unlink_pid : M
  unlink_pid s = (ok tt, record s { pid_file = none })

  from_pid : Option ℕ → M
  unfolding shutdown_existing unlink_pid
  from_pid none = halt bad_pid
  from_pid (some p) = unlink_pid >> shutdown_existing p

  by_pid_file : Option Text → M
  unfolding from_pid int_of
  by_pid_file none = pure tt
  by_pid_file (some t) = from_pid (int_of (split t))

  remove_path : Text → M
  unfolding act
  remove_path path = if host.exists_path path then act (remove_tree path) else pure tt

  unfoldable pub shutdown_servers : List Server → M
  unfolding shutdown_existing remove_path
  shutdown_servers [] = pure tt
  shutdown_servers (server ∷ servers) =
      shutdown_existing server.server_pid >> remove_path server.db_path >> shutdown_servers servers

  abbrev pub all_servers : List Server → List (List Server) → List Server
  all_servers servers [] = servers
  all_servers servers (shard ∷ shards) = all_servers (servers ++ shard) shards

  unlink_log : M
  unlink_log s = (ok tt, record s { out_log = none })

  from_log : Log → M
  unfolding shutdown_servers unlink_log
  from_log no_cluster = pure tt
  from_log (cluster servers shards) = shutdown_servers (all_servers servers shards) >> unlink_log
  from_log other = halt no_key

  by_out_log : Option Text → M
  unfolding from_log
  by_out_log none = pure tt
  by_out_log (some t) = from_log (host.loads t)

  unlink_container : M
  unlink_container s = (ok tt, record s { container_file = none })

  by_container_file : Option Text → Option Text → M
  unfolding act unlink_container
  by_container_file (some docker) (some id) = act (shutdown_container id) >> unlink_container
  by_container_file none id = pure tt
  by_container_file (some docker) none = pure tt

  unfoldable pub is_orchestration : Process → Bool
  is_orchestration p = matches p.cmdline
    where
      matches : Told (List Text) → Bool
      matches gone = false
      matches denied = false
      matches (told items) =
          any
            (λ item.
              contains (codes "mongo_orchestration.server") item
              || contains (codes "mongo-orchestration") item)
            items

  unfoldable pub is_server : Process → Bool
  is_server p = named p.name
    where
      named : Told Text → Bool
      named gone = false
      named denied = false
      named (told name) = any (text_eq name) (
          codes "mongod"
          ∷ codes "mongos"
          ∷ codes "mongod.exe"
          ∷ codes "mongos.exe"
          ∷ codes "mongod-real"
          ∷ codes "mongos-real"
          ∷ [])

  -- The loop over the command lines.
  unfoldable pub shutdown_all : (Process → Bool) → List Process → M
  unfolding shutdown_proc
  shutdown_all test [] = pure tt
  shutdown_all test (p ∷ ps) =
      (if test p then shutdown_proc p.pid else pure tt) >> shutdown_all test ps

  raises_denied : Process → Bool
  raises_denied p = by p.name
    where
      by : Told Text → Bool
      by (told name) = false
      by gone = false
      by denied = true

  -- The last loop, over the names.
  unfoldable pub shutdown_named : List Process → M
  unfolding shutdown_proc raises_denied is_server
  shutdown_named [] = pure tt
  shutdown_named (p ∷ ps) =
      if raises_denied p
      then halt access_denied
      else (if is_server p then shutdown_proc p.pid else pure tt) >> shutdown_named ps

  -- image.rpartition(":")
  unfoldable pub rpartition_colon : Text → Option (Text × Text)
  rpartition_colon [] = none
  rpartition_colon (c ∷ s) = elim (rpartition_colon s) [
    | some (repo, tag) ↦ some (c ∷ repo, tag)
    | none ↦ (if c == b':' then some ([], s) else none)
  ]

  -- The image without its tag; what follows a port has a slash.
  unfoldable pub repo_of : Text → Text
  unfolding rpartition_colon
  repo_of image = elim (rpartition_colon image) [
    | none ↦ image
    | some (repo, tag) ↦ (if contains (codes "/") tag then image else repo)
  ]

  abbrev ends_with : Text → Text → Bool
  ends_with s end_of = any (text_eq end_of) (suffixes s)

  unfoldable pub is_atlas : Text → Bool
  unfolding repo_of
  is_atlas image =
      (text_eq (repo_of image) (codes "mongodb/mongodb-atlas-local")
        || text_eq (repo_of image) (codes "mongo"))
      || (ends_with (repo_of image) (codes "/mongodb/mongodb-atlas-local")
          || ends_with (repo_of image) (codes "/mongo"))

  by_line : List Text → M
  unfolding act is_atlas
  by_line (image ∷ id ∷ []) = if is_atlas image then act (shutdown_container id) else pure tt
  by_line _ = halt bad_line

  by_lines : List Text → M
  unfolding by_line
  by_lines [] = pure tt
  by_lines (line ∷ lines) = by_line (split_at 9 [] line) >> by_lines lines

  -- The lines of a stripped output.
  abbrev lines_of : Option Text → List Text
  lines_of none = []
  lines_of (some []) = []
  lines_of (some (c ∷ s)) = split_at 10 [] (c ∷ s)

  by_images : Option Text → M
  unfolding by_lines
  by_images none = pure tt
  by_images (some docker) = by_lines (lines_of host.images)

  -- What a step finds in the files at its time.
  abbrev reading : (State → M) → M
  reading step s = step s s

  unfoldable pub stop : M
  unfolding by_pid_file by_out_log by_container_file shutdown_all is_orchestration shutdown_named
      by_images
  stop =
      reading (λ s. by_pid_file s.pid_file)
      >> reading (λ s. by_out_log s.out_log)
      >> reading (λ s. by_container_file host.docker s.container_file)
      >> shutdown_all is_orchestration host.processes
      >> by_images host.docker
      >> shutdown_named host.processes
