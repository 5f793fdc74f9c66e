-- ===== src/Orchestration/Stop/Targets.antt =====
-- `stop` ends nothing but what it is for.
use drivers_evergreen_tools.Common.{
  ℕ, ◌≡◌, ◌⊎◌, refl, sym, inl, inr, arith, Bool, true, false, ◌||◌, List, [], ◌∷◌, ◌++◌, append-nil,
  append_assoc, Option, none, some, All, Some, All-append, Result, ok, raise, if◌then◌else◌,
}
use drivers_evergreen_tools.Common.Exec.{pure, stop as halt, ◌>>=◌, ◌>>◌, continue}
use drivers_evergreen_tools.Common.Text.{Text, split}
use drivers_evergreen_tools.Mongodl.Pattern.{split_at}
use drivers_evergreen_tools.Orchestration.Stop.{
  Error, Action, terminate, kill, remove_tree, shutdown_container, State, Process, Server, Log,
  no_cluster, cluster, other, Answer, ends, stays, refuses, unkillable, raises_denied,
  shutdown_named, access_denied, Host, M, act, by_answer, shutdown_proc, shutdown_existing, int_of,
  unlink_pid, from_pid, by_pid_file, remove_path, shutdown_servers, all_servers, unlink_log,
  from_log, by_out_log, unlink_container, by_container_file, is_orchestration, is_server,
  shutdown_all, is_atlas, by_line, by_lines, lines_of, by_images, reading, stop,
}

module _ (host : Host) (s₀ : State) where
  -- The servers that the log of mongodb-runner lists.
  abbrev logged : Log → List Server
  logged no_cluster = []
  logged (cluster servers shards) = all_servers host servers shards
  logged other = []

  abbrev pub servers_of : Option Text → List Server
  servers_of none = []
  servers_of (some t) = logged (host.loads t)

  abbrev pub pid_of : Option Text → Option ℕ
  pid_of none = none
  pid_of (some t) = int_of host (split t)

  -- A process that `stop` may end: that of the pid file, a server of the log, or one of the list
  -- that is mongo-orchestration or a server by its name.
  pub MayEnd : ℕ → Type 0
  MayEnd p =
      (pid_of s₀.pid_file ≡ some p)
      ⊎ (Some (λ (server : Server). server.server_pid ≡ p) (servers_of s₀.out_log)
          ⊎ Some
              (λ (q : Process).
                (q.pid ≡ p) × ((is_orchestration host q || is_server host q) ≡ true))
              host.processes)

  -- The image and the container of a line of `docker ps`.
  pub NamesAtlas : Text → List Text → Type 0
  NamesAtlas container (image ∷ id ∷ []) = (id ≡ container) × (is_atlas host image ≡ true)
  NamesAtlas container _ = ⊥

  pub IsTarget : Action → Type 0
  unfolding MayEnd NamesAtlas
  IsTarget (terminate p) = MayEnd p
  IsTarget (kill p) = MayEnd p
  IsTarget (remove_tree path) =
      Some (λ (server : Server). server.db_path ≡ path) (servers_of s₀.out_log)
  IsTarget (shutdown_container id) =
      (s₀.container_file ≡ some id)
      ⊎ Some (λ line. NamesAtlas id (split_at 9 [] line)) (lines_of host host.images)

  -- What holds at every moment: only targets were touched, and no file is new.
  record Inv (s : State) : Type 0 where
    new : List Action
    grown : s.done ≡ s₀.done ++ new
    allowed : All IsTarget new
    pid : (s.pid_file ≡ s₀.pid_file) ⊎ (s.pid_file ≡ none)
    log : (s.out_log ≡ s₀.out_log) ⊎ (s.out_log ≡ none)
    container : (s.container_file ≡ s₀.container_file) ⊎ (s.container_file ≡ none)

  abbrev Keeps : M → Type 0
  Keeps m = (s : State) → Inv s → Inv (m s).1

  Keeps-pure : Keeps (pure tt)
  unfolding pure
  Keeps-pure s i = i

  Keeps-halt : (e : Error) → Keeps (halt e)
  unfolding halt
  Keeps-halt e s i = i

  Keeps-then : (m n : M) → Keeps m → Keeps n → Keeps (m >> n)
  unfolding ◌>>=◌ continue
  Keeps-then m n km kn s i = after (m s).0 (m s).1 (km s i)
    where
      after : (r : Result Error (Unit {0})) (s' : State) → Inv s' → Inv (continue r (λ _. n) s').1
      after (ok u) s' j = kn s' j
      after (raise e) s' j = j

  Keeps-if : (b : Bool) (m n : M) → (b ≡ true → Keeps m) → Keeps n → Keeps (if b then m else n)
  Keeps-if true m n km kn = km refl
  Keeps-if false m n km kn = kn

  Keeps-act : (a : Action) → IsTarget a → Keeps (act a)
  unfolding act
  Keeps-act a h s i = record {
    new = i.new ++ a ∷ [];
    grown = rw i.grown (append_assoc s₀.done i.new (a ∷ []));
    allowed = All-append IsTarget i.new (a ∷ []) i.allowed (h, tt);
    pid = i.pid;
    log = i.log;
    container = i.container;
  }

  Keeps-shutdown_proc : (p : ℕ) → MayEnd p → Keeps (shutdown_proc host p)
  unfolding shutdown_proc by_answer IsTarget
  Keeps-shutdown_proc p h = by (host.answer p)
    where
      by : (a : Answer) → Keeps (by_answer host p a)
      by ends = Keeps-act (terminate p) h
      by stays =
          Keeps-then (act (terminate p)) (act (kill p)) (Keeps-act (terminate p) h)
            (Keeps-act (kill p) h)
      by refuses = Keeps-pure
      by unkillable = Keeps-act (terminate p) h

  Keeps-shutdown_existing : (p : ℕ) → MayEnd p → Keeps (shutdown_existing host p)
  unfolding shutdown_existing
  Keeps-shutdown_existing p h =
      Keeps-if (host.pid_exists p) _ (pure tt) (λ _. Keeps-shutdown_proc p h) Keeps-pure

  Keeps-unlink_pid : Keeps (unlink_pid host)
  unfolding unlink_pid
  Keeps-unlink_pid s i = record {
    new = i.new;
    grown = i.grown;
    allowed = i.allowed;
    pid = inr refl;
    log = i.log;
    container = i.container;
  }

  Keeps-unlink_log : Keeps (unlink_log host)
  unfolding unlink_log
  Keeps-unlink_log s i = record {
    new = i.new;
    grown = i.grown;
    allowed = i.allowed;
    pid = i.pid;
    log = inr refl;
    container = i.container;
  }

  Keeps-unlink_container : Keeps (unlink_container host)
  unfolding unlink_container
  Keeps-unlink_container s i = record {
    new = i.new;
    grown = i.grown;
    allowed = i.allowed;
    pid = i.pid;
    log = i.log;
    container = inr refl;
  }

  Keeps-by_pid_file :
      (t : Option Text) → (t ≡ s₀.pid_file) ⊎ (t ≡ none) → Keeps (by_pid_file host t)
  unfolding by_pid_file from_pid MayEnd
  Keeps-by_pid_file none h = Keeps-pure
  Keeps-by_pid_file (some t) h = by (int_of host (split t)) refl
    where
      by : (p : Option ℕ) → int_of host (split t) ≡ p → Keeps (from_pid host p)
      by none e = Keeps-halt _
      by (some p) e =
          let now : some t ≡ s₀.pid_file = ground arith in
          Keeps-then (unlink_pid host) (shutdown_existing host p) Keeps-unlink_pid
            (Keeps-shutdown_existing p (inl (rw (← now) e)))

  Keeps-shutdown_servers :
      (servers : List Server)
      → ((p : ℕ) → Some (λ (server : Server). server.server_pid ≡ p) servers → MayEnd p)
      → ((path : Text)
          → Some (λ (server : Server). server.db_path ≡ path) servers
          → IsTarget (remove_tree path))
      → Keeps (shutdown_servers host servers)
  unfolding shutdown_servers remove_path
  Keeps-shutdown_servers [] ends_them removes = Keeps-pure
  Keeps-shutdown_servers (server ∷ servers) ends_them removes =
      Keeps-then (shutdown_existing host server.server_pid >> remove_path host server.db_path)
        (shutdown_servers host servers)
        (Keeps-then (shutdown_existing host server.server_pid) (remove_path host server.db_path)
          (Keeps-shutdown_existing server.server_pid (ends_them server.server_pid (inl refl)))
          (Keeps-if (host.exists_path server.db_path) _ (pure tt)
            (λ _. Keeps-act (remove_tree server.db_path) (removes server.db_path (inl refl)))
            Keeps-pure))
        (Keeps-shutdown_servers servers (λ p h. ends_them p (inr h))
          (λ path h. removes path (inr h)))

  Keeps-from_log :
      (log : Log)
      → ((p : ℕ) → Some (λ (server : Server). server.server_pid ≡ p) (logged log) → MayEnd p)
      → ((path : Text)
          → Some (λ (server : Server). server.db_path ≡ path) (logged log)
          → IsTarget (remove_tree path))
      → Keeps (from_log host log)
  unfolding from_log
  Keeps-from_log no_cluster ends_them removes = Keeps-pure
  Keeps-from_log other ends_them removes = Keeps-halt _
  Keeps-from_log (cluster servers shards) ends_them removes =
      Keeps-then (shutdown_servers host (all_servers host servers shards)) (unlink_log host)
        (Keeps-shutdown_servers (all_servers host servers shards) ends_them removes)
        Keeps-unlink_log

  Keeps-by_out_log : (t : Option Text) → (t ≡ s₀.out_log) ⊎ (t ≡ none) → Keeps (by_out_log host t)
  unfolding by_out_log MayEnd IsTarget
  Keeps-by_out_log none h = Keeps-pure
  Keeps-by_out_log (some t) h =
      let now : some t ≡ s₀.out_log = ground arith in
      Keeps-from_log (host.loads t) (λ p k. inr (inl (rw (← now) k))) (λ path k. rw (← now) k)

  Keeps-by_container_file :
      (docker t : Option Text)
      → (t ≡ s₀.container_file) ⊎ (t ≡ none)
      → Keeps (by_container_file host docker t)
  unfolding by_container_file IsTarget
  Keeps-by_container_file none t h = Keeps-pure
  Keeps-by_container_file (some docker) none h = Keeps-pure
  Keeps-by_container_file (some docker) (some id) h =
      let now : s₀.container_file ≡ some id = ground arith in
      Keeps-then (act (shutdown_container id)) (unlink_container host)
        (Keeps-act (shutdown_container id) (inl now)) Keeps-unlink_container

  Keeps-shutdown_all :
      (test : Process → Bool) (ps : List Process)
      → ((p : ℕ) → Some (λ (q : Process). (q.pid ≡ p) × (test q ≡ true)) ps → MayEnd p)
      → Keeps (shutdown_all host test ps)
  unfolding shutdown_all
  Keeps-shutdown_all test [] ends_them = Keeps-pure
  Keeps-shutdown_all test (q ∷ ps) ends_them =
      Keeps-then (if test q then shutdown_proc host q.pid else pure tt) (shutdown_all host test ps)
        (Keeps-if (test q) (shutdown_proc host q.pid) (pure tt)
          (λ e. Keeps-shutdown_proc q.pid (ends_them q.pid (inl (refl, e)))) Keeps-pure)
        (Keeps-shutdown_all test ps (λ p h. ends_them p (inr h)))

  Keeps-shutdown_named :
      (ps : List Process)
      → ((p : ℕ) → Some (λ (q : Process). (q.pid ≡ p) × (is_server host q ≡ true)) ps → MayEnd p)
      → Keeps (shutdown_named host ps)
  unfolding shutdown_named
  Keeps-shutdown_named [] ends_them = Keeps-pure
  Keeps-shutdown_named (q ∷ ps) ends_them =
      Keeps-if (raises_denied host q) (halt access_denied) _ (λ _. Keeps-halt access_denied)
        (Keeps-then (if is_server host q then shutdown_proc host q.pid else pure tt)
          (shutdown_named host ps)
          (Keeps-if (is_server host q) (shutdown_proc host q.pid) (pure tt)
            (λ e. Keeps-shutdown_proc q.pid (ends_them q.pid (inl (refl, e)))) Keeps-pure)
          (Keeps-shutdown_named ps (λ p h. ends_them p (inr h))))

  Keeps-by_line :
      (line : List Text)
      → ((id : Text) → NamesAtlas id line → IsTarget (shutdown_container id))
      → Keeps (by_line host line)
  unfolding by_line NamesAtlas
  Keeps-by_line [] h = Keeps-halt _
  Keeps-by_line (image ∷ []) h = Keeps-halt _
  Keeps-by_line (image ∷ id ∷ []) h =
      Keeps-if (is_atlas host image) (act (shutdown_container id)) (pure tt)
        (λ e. Keeps-act (shutdown_container id) (h id (refl, e))) Keeps-pure
  Keeps-by_line (image ∷ id ∷ more ∷ parts) h = Keeps-halt _

  Keeps-by_lines :
      (lines : List Text)
      → ((id : Text)
          → Some (λ line. NamesAtlas id (split_at 9 [] line)) lines
          → IsTarget (shutdown_container id))
      → Keeps (by_lines host lines)
  unfolding by_lines
  Keeps-by_lines [] h = Keeps-pure
  Keeps-by_lines (line ∷ lines) h =
      Keeps-then (by_line host (split_at 9 [] line)) (by_lines host lines)
        (Keeps-by_line (split_at 9 [] line) (λ id k. h id (inl k)))
        (Keeps-by_lines lines (λ id k. h id (inr k)))

  Keeps-by_images : (docker : Option Text) → Keeps (by_images host docker)
  unfolding by_images IsTarget
  Keeps-by_images none = Keeps-pure
  Keeps-by_images (some docker) = Keeps-by_lines (lines_of host host.images) (λ id k. inr k)

  Some-or :
      (test test' : Process → Bool) (p : ℕ) (ps : List Process)
      → (Some (λ (q : Process). (q.pid ≡ p) × (test q ≡ true)) ps)
        ⊎ (Some (λ (q : Process). (q.pid ≡ p) × (test' q ≡ true)) ps)
      → Some (λ (q : Process). (q.pid ≡ p) × ((test q || test' q) ≡ true)) ps
  Some-or test test' p [] (inl h) = elim h [ ]
  Some-or test test' p [] (inr h) = elim h [ ]
  Some-or test test' p (q ∷ ps) (inl (inl h)) = inl (ground arith)
  Some-or test test' p (q ∷ ps) (inr (inl h)) = inl (ground arith)
  Some-or test test' p (q ∷ ps) (inl (inr h)) = inr (Some-or test test' p ps (inl h))
  Some-or test test' p (q ∷ ps) (inr (inr h)) = inr (Some-or test test' p ps (inr h))

  Keeps-reading :
      (step : State → M) → ((s : State) → Inv s → Keeps (step s)) → Keeps (reading host step)
  Keeps-reading step h s i = h s i s i

  Keeps-stop : Keeps (stop host)
  unfolding stop MayEnd
  Keeps-stop =
      let pid_step = reading host (λ s. by_pid_file host s.pid_file) in
      let log_step = reading host (λ s. by_out_log host s.out_log) in
      let container_step =
        reading host (λ s. by_container_file host host.docker s.container_file) in
      let first = shutdown_all host (is_orchestration host) host.processes in
      let last = shutdown_named host host.processes in
      let files =
        Keeps-then pid_step log_step
          (Keeps-reading (λ s. by_pid_file host s.pid_file)
            (λ s i. Keeps-by_pid_file s.pid_file i.pid))
          (Keeps-reading (λ s. by_out_log host s.out_log)
            (λ s i. Keeps-by_out_log s.out_log i.log)) in
      let containers = Keeps-then (pid_step >> log_step) container_step files (
        Keeps-reading (λ s. by_container_file host host.docker s.container_file)
          (λ s i. Keeps-by_container_file host.docker s.container_file i.container)) in
      let orchestrations = Keeps-then (pid_step >> log_step >> container_step) first containers (
        Keeps-shutdown_all (is_orchestration host) host.processes (λ p h.
          inr (inr (Some-or (is_orchestration host) (is_server host) p host.processes (inl h))))) in
      let images =
        Keeps-then (pid_step >> log_step >> container_step >> first) (by_images host host.docker)
          orchestrations (Keeps-by_images host.docker) in
      Keeps-then (pid_step >> log_step >> container_step >> first >> by_images host host.docker)
        last images
        (Keeps-shutdown_named host.processes (λ p h.
          inr (inr (Some-or (is_orchestration host) (is_server host) p host.processes (inr h)))))

  -- Whether `stop` succeeds or fails: a process that it ends is that of the pid file, a server in
  -- the log of mongodb-runner, or named or called like a server or mongo-orchestration; a tree
  -- that it removes is the data of a server in that log; and a container that it shuts down is
  -- that of the container file or runs an image of MongoDB.
  pub stop-IsTarget :
      (new : List Action) × ((stop host s₀).1.done ≡ s₀.done ++ new) × All IsTarget new
  stop-IsTarget =
      let i = Keeps-stop s₀ (record {
        new = [];
        grown = sym (append-nil s₀.done);
        allowed = tt;
        pid = inl refl;
        log = inl refl;
        container = inl refl;
      }) in
      (i.new, i.grown, i.allowed)
