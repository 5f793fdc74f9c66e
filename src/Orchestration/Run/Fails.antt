-- ===== src/Orchestration/Run/Fails.antt =====
-- Runs that fail, and what they have done before.
use drivers_evergreen_tools.Common.{
  ◌≡◌, ◌≢◌, refl, sym, ap, subst, ◌∙◌, Bool, true, false, List, [], ◌∷◌, ◌++◌, append-nil,
  append_assoc, Option, none, some, All, All-append, Result, ok, raise, if◌then◌else◌,
}
use drivers_evergreen_tools.Common.Exec.{Exec, pure, stop as halt, ◌>>=◌, continue}
use drivers_evergreen_tools.Common.Text.{Text}
use drivers_evergreen_tools.Orchestration.Json.{Fields}
use drivers_evergreen_tools.Orchestration.Options.{Options, is_set, or_default}
use drivers_evergreen_tools.Orchestration.Otel as Otel
use drivers_evergreen_tools.Orchestration.Otel.{
  Dirs, handle_otel_config, validate_otel_opts, check_mongod_version,
}
use drivers_evergreen_tools.Orchestration.Run.{
  Error, Event, stopped, cleaned, made, downloaded, copied, ran, downloaded_mongosh, started_atlas,
  started_runner, started_orchestration, posted, World, Host, Step, event, or_fail, clean_run,
  validated, made_dirs, orchestration_data, otel_data, call_stop, before_downloads, call_mongodl,
  run_command, archive, server,
}

-- The event fetches nothing, by a download or a copy.
unfoldable pub FetchesNothing : Event → Type 0
FetchesNothing (downloaded args) = ⊥
FetchesNothing (downloaded_mongosh args) = ⊥
FetchesNothing (copied dir) = ⊥
FetchesNothing _ = Unit

-- The event starts no deployment.
unfoldable pub StartsNothing : Event → Type 0
StartsNothing started_atlas = ⊥
StartsNothing started_runner = ⊥
StartsNothing started_orchestration = ⊥
StartsNothing (posted fs) = ⊥
StartsNothing _ = Unit

-- The run fails, and all its events satisfy the predicate.
pub record FailsWith {A : Type 0} (P : Event → Type 0) (w : World) (r : Result Error A × World)
    : Type 0 where
  pub error : Error
  pub fails : r.0 ≡ raise error
  pub new : List Event
  pub events : r.1.events ≡ w.events ++ new
  pub only : All P new

module _ (P : Event → Type 0) where
  Added : World → World → Type 0
  Added w w' = (new : List Event) × (w'.events ≡ w.events ++ new) × All P new

  pub Adds : {A : Type 0} → Exec World Error A → Type 0
  unfolding Added
  Adds m = (w : World) → Added w (m w).1

  Added-same : (w w' : World) → w'.events ≡ w.events → Added w w'
  unfolding Added
  Added-same w w' e = ([], e ∙ sym (append-nil w.events), tt)

  Added-trans : (w w' w'' : World) → Added w w' → Added w' w'' → Added w w''
  unfolding Added
  Added-trans w w' w'' (new, e, h) (new', e', h') = (
    new ++ new',
    e' ∙ ap (λ (l : List Event). l ++ new') e ∙ append_assoc w.events new new',
    All-append P new new' h h',
  )

  Adds-pure : {A : Type 0} (a : A) → Adds (pure {S = World} {E = Error} a)
  unfolding Adds pure
  Adds-pure a w = Added-same w w refl

  Adds-halt : (A : Type 0) (e : Error) → Adds (halt {S = World} {A = A} e)
  unfolding Adds halt
  Adds-halt A e w = Added-same w w refl

  Adds-bind :
      {A B : Type 0} (m : Exec World Error A) (f : A → Exec World Error B)
      → Adds m
      → ((a : A) → Adds (f a))
      → Adds (m >>= f)
  unfolding Adds ◌>>=◌ continue
  Adds-bind {A} {B} m f am af w = after (m w).0 (m w).1 (am w)
    where
      after : (r : Result Error A) (w' : World) → Added w w' → Added w (continue {B = B} r f w').1
      after (ok a) w' g = Added-trans w w' (f a w').1 g (af a w')
      after (raise e) w' g = g

  Adds-event : (e : Event) → P e → Adds (event e)
  unfolding Adds Added event
  Adds-event e h w = (e ∷ [], refl, (h, tt))

  Adds-or_fail : (t : Option Text) → Adds (or_fail t)
  unfolding or_fail
  Adds-or_fail none = Adds-pure tt
  Adds-or_fail (some t) = Adds-halt _ _

  Adds-if :
      {A : Type 0} (b : Bool) (m n : Exec World Error A)
      → Adds m
      → Adds n
      → Adds (if b then m else n)
  Adds-if true m n am an = am
  Adds-if false m n am an = an

  Adds-quiet :
      {A : Type 0} (m : Exec World Error A) → ((w : World) → (m w).1.events ≡ w.events) → Adds m
  unfolding Adds
  Adds-quiet m h w = Added-same w (m w).1 (h w)

  -- A chain fails where its first step does.
  pub fails_first :
      {A B : Type 0} (m : Exec World Error A) (f : A → Exec World Error B) (w : World)
      → Adds m
      → ((a : A) (w' : World) → m w ≢ (ok a, w'))
      → FailsWith P w ((m >>= f) w)
  unfolding ◌>>=◌ continue Adds Added
  fails_first {A} {B} m f w adds never = by (m w).0 (m w).1 refl
    where
      by :
          (r : Result Error A) (w' : World)
          → m w ≡ (r, w')
          → FailsWith P w (continue {B = B} r f w')
      by (ok a) w' e = absurd (never a w' e)
      by (raise e) w' same =
          let (new, grown, all) = adds w in
          record {
            error = e;
            fails = refl;
            new = new;
            events =
                subst (λ (p : Result Error A × World). p.1.events ≡ w.events ++ new) same grown;
            only = all;
          }

  pub fails_bind :
      {A B : Type 0} (m : Exec World Error A) (f : A → Exec World Error B) (w : World)
      → FailsWith P w (m w)
      → FailsWith P w ((m >>= f) w)
  unfolding ◌>>=◌ continue
  fails_bind {A} {B} m f w failed = by (m w).0 (m w).1 failed.fails failed.events
    where
      by :
          (r : Result Error A) (w' : World)
          → r ≡ raise failed.error
          → w'.events ≡ w.events ++ failed.new
          → FailsWith P w (continue {B = B} r f w')
      by (ok a) w' e grown = cc
      by (raise e) w' same grown = record {
        error = e;
        fails = refl;
        new = failed.new;
        events = grown;
        only = failed.only;
      }

  -- A chain fails where what follows its first step does.
  pub fails_then :
      {A : Type 0} (m : Exec World Error A) (f : A → Step) (w : World)
      → Adds m
      → ((a : A) (w' : World) → FailsWith P w' (f a w'))
      → FailsWith P w ((m >>= f) w)
  unfolding ◌>>=◌ continue Adds Added
  fails_then {A} m f w adds fails_after = by (m w).0 (m w).1 (adds w)
    where
      by : (r : Result Error A) (w' : World) → Added w w' → FailsWith P w (continue r f w')
      by (ok a) w' (new, grown, all) =
          let later = fails_after a w' in
          record {
            error = later.error;
            fails = later.fails;
            new = new ++ later.new;
            events =
                later.events
                ∙ ap (λ (l : List Event). l ++ later.new) grown
                ∙ append_assoc w.events new later.new;
            only = All-append P new later.new all later.only;
          }
      by (raise e) w' (new, grown, all) = record {
        error = e;
        fails = refl;
        new = new;
        events = grown;
        only = all;
      }

  module _ (host : Host) (opts : Options) (stops : P stopped) (cleans : P cleaned)
      (makes : (d : Dirs) → P (made d)) where
    Adds-clean_run : Adds clean_run
    unfolding clean_run
    Adds-clean_run =
        Adds-bind (event cleaned) _ (Adds-event cleaned cleans) (λ _. Adds-quiet _ (λ w. refl))

    Adds-validated : (r : Result Otel.Error (Unit {0})) → Adds (validated host r)
    unfolding validated
    Adds-validated (ok u) = Adds-pure tt
    Adds-validated (raise e) = Adds-halt _ _

    Adds-made_dirs : (r : Result Error Fields × Dirs) → Adds (made_dirs host r)
    unfolding made_dirs Adds Added
    Adds-made_dirs (r, dirs) w = (made dirs ∷ [], refl, (makes dirs, tt))

    Adds-call_stop : Adds (call_stop host)
    unfolding call_stop
    Adds-call_stop =
        Adds-bind (event stopped) _ (Adds-event stopped stops) (λ _. Adds-or_fail host.stop_error)

    pub Adds-before_downloads : Adds (before_downloads host opts)
    unfolding before_downloads orchestration_data otel_data
    Adds-before_downloads =
        Adds-bind _ (otel_data host opts)
          (Adds-bind _ (λ _. orchestration_data host opts)
            (Adds-bind _ (λ _. clean_run)
              (Adds-bind (validated host (validate_otel_opts host.config_host.docker_running opts))
                (λ _. call_stop host) (Adds-validated _) (λ _. Adds-call_stop))
              (λ _. Adds-clean_run))
            (λ _. Adds-made_dirs _))
          (λ fs. Adds-if opts.otel _ (pure fs) (Adds-made_dirs _) (Adds-pure fs))

    Adds-call_mongodl : (args : Text) → P (downloaded args) → Adds (call_mongodl host args)
    unfolding call_mongodl
    Adds-call_mongodl args h =
        Adds-bind (event (downloaded args)) _ (Adds-event (downloaded args) h)
          (λ _. Adds-or_fail (host.mongodl args))

    Adds-run_command : (cmd : Text) → P (ran cmd) → Adds (run_command host cmd)
    unfolding run_command
    Adds-run_command cmd h =
        Adds-bind (event (ran cmd)) _ (Adds-event (ran cmd) h)
          (λ _. Adds-or_fail (host.command cmd))

    Adds-archive :
        ((args : Text) → P (downloaded args))
        → ((dir : Text) → P (copied dir))
        → Adds (archive host opts)
    unfolding archive
    Adds-archive fetches copies =
        Adds-if (is_set opts.existing_binaries_dir) _ _
          (Adds-bind (event (copied (or_default opts.existing_binaries_dir []))) _
            (Adds-event _ (copies (or_default opts.existing_binaries_dir [])))
            (λ _. Adds-or_fail (host.copytree (or_default opts.existing_binaries_dir []))))
          (Adds-call_mongodl _ (fetches _))

    pub Adds-server :
        ((args : Text) → P (downloaded args))
        → ((dir : Text) → P (copied dir))
        → ((cmd : Text) → P (ran cmd))
        → Adds (server host opts)
    unfolding server
    Adds-server fetches copies runs = Adds-if opts.local_atlas (pure tt) _ (Adds-pure tt) (
        Adds-bind _ _
          (Adds-bind (archive host opts) _ (Adds-archive fetches copies)
            (λ _. Adds-run_command _ (runs _)))
          (λ _.
            Adds-if opts.otel (validated host (check_mongod_version host.mongod_output)) (pure tt)
              (Adds-validated _) (Adds-pure tt)))
