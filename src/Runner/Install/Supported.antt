-- ===== src/Runner/Install/Supported.antt =====
-- When the program falls back to mongo-orchestration.
use drivers_evergreen_tools.Common.{
  ◌≡◌, ◌≢◌, ◌⊎◌, refl, sym, ap, subst, inl, inr, arith, Bool, true, false, not, ◌||◌, Bool-cases,
  List, Option, none, some, Result, ok, raise, if◌then◌else◌,
}
use drivers_evergreen_tools.Common.Exec.{pure, stop, ◌>>=◌, continue, >>=-succeeds}
use drivers_evergreen_tools.Common.Text.{Text, codes}
use drivers_evergreen_tools.Runner.Install.{
  Event, Host, event, pin_dir, lifted, or_fail, npm, second_try, retried, install_in, install_dir,
  runner_bin, installed_or, install_mongodb_runner, host_lacks_mongodb_runner_support, judged,
  mongodb_runner_supported,
}

module _ (host : Host) where
  -- npm has installed the pins: with the Node that was there, or with the one that the program
  -- has installed after a failure.
  pub Npm : Type 0
  Npm =
      (host.npm_ci false ≡ none)
      ⊎ ((host.npm_ci false ≢ none) × (host.install_node ≡ true) × (host.npm_ci true ≡ none))

  -- An earlier installation is there, and a Node to run it.
  pub Cached : Text → Text × Text → Text → Type 0
  Cached version versions digest =
      (host.exists_path (runner_bin host (install_dir host versions digest)) ≡ true)
      × (host.has_node ≡ true)

  fail_lem :
      (prefix : Text) (o : Option Text) (s s' : List Event) {u : Unit {0}}
      → or_fail host prefix o s ≡ (ok u, s')
      → o ≡ none
  unfolding or_fail stop
  fail_lem prefix none s s' h = refl
  fail_lem prefix (some e) s s' h = absurd (ground arith)

  retried_lem :
      (o : Option Text) (s s' : List Event)
      → host.npm_ci false ≡ o
      → retried host o s ≡ (ok none, s')
      → Npm
  unfolding retried second_try npm event pure Npm ◌>>=◌ continue
  retried_lem none s s' e h = inl e
  retried_lem (some x) s s' e h = elim (Bool-cases host.install_node) [
    | inl f ↦ inr (λ k. cc, f, ground arith)
    | inr f ↦ absurd (ground arith)
  ]

  npm_lem :
      (own_node : Bool) (s s' : List Event) {o : Option Text}
      → npm host own_node s ≡ (ok o, s')
      → host.npm_ci own_node ≡ o
  unfolding npm event pure ◌>>=◌ continue
  npm_lem own_node s s' h = ground arith

  install_in_lem :
      (pins dir : Text) (s s' : List Event) {u : Unit {0}}
      → install_in host pins dir s ≡ (ok u, s')
      → Npm
  unfolding install_in
  install_in_lem pins dir s s' h =
      let (o, s₁, before, last) =
        >>=-succeeds _ (or_fail host (codes "could not install mongodb-runner: ")) s h in
      let (o', s₂, earlier, again) = >>=-succeeds _ (retried host) s before in
      let (u', s₃, _, first) = >>=-succeeds _ (λ _. npm host false) s earlier in
      let done : retried host o' s₂ ≡ (ok none, s₁) =
        subst (λ (x : Option Text). retried host o' s₂ ≡ (ok x, s₁))
          (fail_lem (codes "could not install mongodb-runner: ") o s₁ s' last) again in
      retried_lem o' s₂ s₁ (npm_lem false s₃ s₂ first) done

  -- The pins were read, and they are installed.
  pub record Ready (version : Text) : Type 0 where
    pub versions : Text × Text
    pub digest : Text
    pub pinned : host.pinned_versions (pin_dir host version) ≡ ok versions
    pub digested : host.pin_digest (pin_dir host version) ≡ ok digest
    pub installed : Cached version versions digest ⊎ Npm

  lifted_lem :
      {A : Type 0} (r : Result Text A) (s s' : List Event) {a : A}
      → lifted host r s ≡ (ok a, s')
      → r ≡ ok a
  unfolding lifted pure stop
  lifted_lem (ok b) s s' h = ground arith
  lifted_lem (raise e) s s' h = absurd (ground arith)

  both_there : (x y : Bool) → (not x || not y) ≡ false → (x ≡ true) × (y ≡ true)
  both_there true true h = (refl, refl)
  both_there true false h = cc
  both_there false true h = cc
  both_there false false h = cc

  installed_lem :
      (version : Text) (versions : Text × Text) (digest : Text) (s s' : List Event) {u : Unit {0}}
      → installed_or host (pin_dir host version) (install_dir host versions digest) s ≡ (ok u, s')
      → Cached version versions digest ⊎ Npm
  unfolding installed_or Cached
  installed_lem version versions digest s s' h =
      let dir = install_dir host versions digest in
      elim (Bool-cases (not (host.exists_path (runner_bin host dir)) || not host.has_node)) [
        | inl missing ↦ inr (install_in_lem (pin_dir host version) dir s s' (rw missing at h))
        | inr there ↦ inl (both_there _ _ there)
      ]

  install-Ready :
      (version : Text) (s s' : List Event) {bin : Text}
      → install_mongodb_runner host version s ≡ (ok bin, s')
      → Ready version
  unfolding install_mongodb_runner
  install-Ready version s s' h =
      let (versions, s₁, read, h₁) =
        >>=-succeeds (lifted host (host.pinned_versions (pin_dir host version))) _ s h in
      let (digest, s₂, hashed, h₂) =
        >>=-succeeds (lifted host (host.pin_digest (pin_dir host version))) _ s₁ h₁ in
      let (u, s₃, installed, _) =
        >>=-succeeds (installed_or host (pin_dir host version) (install_dir host versions digest)) _
          s₂ h₂ in
      record {
        versions = versions;
        digest = digest;
        pinned = lifted_lem _ s s₁ read;
        digested = lifted_lem _ s₁ s₂ hashed;
        installed = installed_lem version versions digest s₂ s₃ installed;
      }

  -- What the answer means: mongodb-runner is installed; it is not, for a reason that lies in the
  -- host; or its pins are broken.
  pub Verdict : Text → List Event → Result Text Bool → Type 0
  Verdict version events (ok true) = Ready version
  Verdict version events (ok false) =
      (message : Text) × ((install_mongodb_runner host version events).0 ≡ raise message)
      × (host_lacks_mongodb_runner_support message ≡ true)
  Verdict version events (raise message) =
      ((install_mongodb_runner host version events).0 ≡ raise message)
      × (host_lacks_mongodb_runner_support message ≡ false)

  -- Without a development runner, `_mongodb_runner_supported` says yes only if the pins were read and
  -- are installed, from the cache or by one of two runs of npm; it says no only for a failure that
  -- is the host's; and any other failure of the installation goes on as an exception.
  pub mongodb_runner_supported-Verdict :
      (version : Text) (events : List Event)
      → host.use_dev_runner ≡ false
      → Verdict version events (mongodb_runner_supported host version events).0
  unfolding mongodb_runner_supported judged Verdict
  mongodb_runner_supported-Verdict version events no_dev =
      let installed = install_mongodb_runner host version events in
      let choose = λ (dev : Bool). if dev then (ok host.has_node, events) else judged installed in
      subst (λ (p : Result Text Bool × List Event). Verdict version events p.0)
        (ap choose (sym no_dev)) (by installed.0 installed.1 refl)
    where
      by :
          (r : Result Text Text) (events' : List Event)
          → install_mongodb_runner host version events ≡ (r, events')
          → Verdict version events (judged (r, events')).0
      by (ok bin) events' e = install-Ready version events events' e
      by (raise message) events' e = elim (Bool-cases (host_lacks_mongodb_runner_support message)) [
        | inl lacks ↦ rw lacks (message, ap (λ (p : Result Text Text × List Event). p.0) e, lacks)
        | inr other ↦ rw other (ap (λ (p : Result Text Text × List Event). p.0) e, other)
      ]
