-- ===== src/Secrets/Fetched.antt =====
-- Which secrets are fetched, and with which rights.
use drivers_evergreen_tools.Common.{
  ◌≡◌, ◌⊎◌, inl, inr, refl, subst, arith, ℕ, true, false, some, Bool-cases, List, [], ◌∷◌, Both,
  Option, none, Result, ok, raise,
}
use drivers_evergreen_tools.Common.Exec.{Exec, pure, >>=-succeeds}
use drivers_evergreen_tools.Common.Text.{Text}
use drivers_evergreen_tools.Secrets.{
  Failure, aws_error, other_error, Error, failed, Host, profile_of, needs_role, recast_end, recast,
  role_client, read_all, last_error, with_role, or_again, reading, fetch,
}

module _ {W C : Type 0} (host : Host W C) where
  pub Gives : {E A : Type 0} → Exec W E A → A → Type 0
  Gives m a = (w : W) × (w' : W) × (m w ≡ (ok a, w'))

  -- One secret for each vault, in their order, all read by this client.
  pub Reads : C → List Text → List Text → Type 0
  Reads c vaults secrets =
      Both (λ vault secret. Gives (host.get_secret_value c vault) secret) vaults secrets

  -- There is a key in the environment, or a profile.
  pub HasRights : Option Text → Type 0
  HasRights profile = (host.has_key ≡ true) ⊎ ((c : ℕ) × (s : Text) × (profile ≡ some (c ∷ s)))

  rights_lem : (profile : Option Text) → needs_role host profile ≡ false → HasRights profile
  unfolding needs_role HasRights
  rights_lem none h = inl (ground arith)
  rights_lem (some []) h = inl (ground arith)
  rights_lem (some (c ∷ s)) h = inr (c, s, refl)

  -- The client that read them: one with the role, or one without, where none was needed.
  pub data Fetched (profile : Option Text) (vaults secrets : List Text) : Type 0 where
    by_role :
        (c : C)
        → Gives (role_client host profile) c
        → Reads c vaults secrets
        → Fetched profile vaults secrets
    plainly :
        (c : C)
        → HasRights profile
        → Gives (host.client profile none) c
        → Reads c vaults secrets
        → Fetched profile vaults secrets

  recast_lem :
      {A : Type 0} (handler : Failure → Error) (m : Exec W Failure A) (w w' : W) {a : A}
      → recast host handler m w ≡ (ok a, w')
      → m w ≡ (ok a, w')
  unfolding recast recast_end
  recast_lem {A = A} handler m w w' {a = a} h = by (m w).0 (m w).1 refl h
    where
      by :
          (r : Result Failure A) (w₁ : W)
          → m w ≡ (r, w₁)
          → recast_end host handler (r, w₁) ≡ (ok a, w')
          → m w ≡ (ok a, w')
      by (ok b) w₁ e k = ground arith
      by (raise x) w₁ e k = cc

  pure_lem : {A : Type 0} (a b : A) (w w' : W) → pure {S = W} {E = Failure} a w ≡ (ok b, w') → a ≡ b
  unfolding pure
  pure_lem a b w w' h = ground arith

  read_all-Reads :
      (c : C) (vaults : List Text) (w w' : W) {secrets : List Text}
      → read_all host c vaults w ≡ (ok secrets, w')
      → Reads c vaults secrets
  unfolding read_all Reads Gives pure
  read_all-Reads c [] w w' {secrets = []} h = tt
  read_all-Reads c [] w w' {secrets = s ∷ ss} h = absurd (ground arith)
  read_all-Reads c (vault ∷ vaults) w w' {secrets = secrets} h =
      let (secret, w₁, one, h₁) = >>=-succeeds (host.get_secret_value c vault) _ w h in
      let (more, w₂, rest, h₂) = >>=-succeeds (read_all host c vaults) _ w₁ h₁ in
      subst (Reads c (vault ∷ vaults)) (pure_lem (secret ∷ more) secrets w₂ w' h₂)
        ((w, w₁, one), read_all-Reads c vaults w₁ w₂ rest)

  with_role-Fetched :
      (vaults : List Text) (profile : Option Text) (w w' : W) {secrets : List Text}
      → with_role host vaults profile w ≡ (ok secrets, w')
      → Fetched profile vaults secrets
  unfolding with_role Gives
  with_role-Fetched vaults profile w w' h =
      let (c, w₁, made, h₁) = >>=-succeeds (role_client host profile) _ w h in
      by_role c (w, w₁, made)
        (read_all-Reads c vaults w₁ w'
          (recast_lem (last_error host) (read_all host c vaults) w₁ w' h₁))

  reading-Fetched :
      (vaults : List Text) (profile : Option Text) (c : C) (w w' : W) {secrets : List Text}
      → needs_role host profile ≡ false
      → Gives (host.client profile none) c
      → reading host vaults profile c w ≡ (ok secrets, w')
      → Fetched profile vaults secrets
  unfolding reading or_again
  reading-Fetched vaults profile c w w' {secrets = secrets} n made h =
      by (read_all host c vaults w).0 (read_all host c vaults w).1 refl h
    where
      by :
          (r : Result Failure (List Text)) (w₁ : W)
          → read_all host c vaults w ≡ (r, w₁)
          → or_again host (with_role host vaults profile) (r, w₁) ≡ (ok secrets, w')
          → Fetched profile vaults secrets
      by (ok s) w₁ e k =
          plainly c (rights_lem profile n) made
            (read_all-Reads c vaults w w' (ground (arith, e, k)))
      by (raise (aws_error t)) w₁ e k = with_role-Fetched vaults profile w₁ w' k
      by (raise (other_error t)) w₁ e k = cc

  -- The secrets that are fetched are one for each vault, in the order of the vaults, and all were
  -- read by the same client: none of a first try that failed stays. The client has the role of the
  -- secrets, or it has the rights of the profile, which is only where there is a profile or a key in
  -- the environment.
  pub fetch-Fetched :
      (vaults : List Text) (profile : Option Text) (w w' : W) {secrets : List Text}
      → fetch host vaults profile w ≡ (ok secrets, w')
      → Fetched (profile_of host profile) vaults secrets
  unfolding fetch Gives
  fetch-Fetched vaults profile w w' h =
      elim (Bool-cases (needs_role host (profile_of host profile))) [
        | inl n ↦ with_role-Fetched vaults (profile_of host profile) w w' (rw n at h)
        | inr n ↦
            let (c, w₁, made, h₁) =
              >>=-succeeds (recast host failed (host.client (profile_of host profile) none))
                (reading host vaults (profile_of host profile)) w (rw n at h) in
            reading-Fetched vaults (profile_of host profile) c w₁ w' n
              (w, w₁, recast_lem failed (host.client (profile_of host profile) none) w w₁ made) h₁
      ]
