-- ===== src/Artifacts/Resolve/Stages.antt =====
-- With which rights a client of the private server artifacts has been made.
use drivers_evergreen_tools.Common.{
  ◌≡◌, ◌⊎◌, refl, inl, inr, ap, subst, arith, Bool, true, false, Bool-cases, List, [], ◌∷◌, Option,
  none, some, ◌==◌, ==_iff, Result, ok, raise, Both,
}
use drivers_evergreen_tools.Common.Exec.{Exec, pure, >>=-succeeds}
use drivers_evergreen_tools.Common.Text.{Text, codes}
use drivers_evergreen_tools.Artifacts.Resolve.{
  AwsError, client_error, no_credentials, botocore_error, Unresolved, uncaught, assume_error,
  Credentials, Aws, full_key, vault_of, probed, has_s3_access, recast_end, recast, role_arn,
  read_vault, tried, attempt_role, if_accessible, with_role, stage_two, stage_three, or_stage_three,
  later_stages, ambient_or_later, resolve_s3_client, presign, presigned_urls,
}
use drivers_evergreen_tools.Artifacts.Resolve.Source.{
  Gives, Accessible, Named, Ambient, Direct, Chained, Source, ambient, direct, chained,
}

module _ {W C : Type 0} (aws : Aws W C) where
  recast_lem :
      {A : Type 0} (handler : AwsError → Unresolved) (m : Exec W AwsError A) (w w' : W) {a : A}
      → recast aws handler m w ≡ (ok a, w')
      → m w ≡ (ok a, w')
  unfolding recast recast_end
  recast_lem {A = A} handler m w w' {a = a} h = by (m w).0 (m w).1 refl h
    where
      by :
          (r : Result AwsError A) (w₁ : W)
          → m w ≡ (r, w₁)
          → recast_end aws handler (r, w₁) ≡ (ok a, w')
          → m w ≡ (ok a, w')
      by (ok b) w₁ e k = ground arith
      by (raise x) w₁ e k = cc

  probed_lem :
      (r : Result AwsError (Unit {0})) (w w' : W)
      → probed aws (r, w) ≡ (ok true, w')
      → (r ≡ ok tt) ⊎ (r ≡ raise (client_error 404))
  unfolding probed
  probed_lem (ok u) w w' h = inl refl
  probed_lem (raise (client_error status)) w w' h = elim (Bool-cases (status == 404)) [
    | inl e ↦ inr (ap (λ n. raise (client_error n)) ((==_iff status 404).0 e))
    | inr e ↦ absurd (ground arith)
  ]
  probed_lem (raise no_credentials) w w' h = cc
  probed_lem (raise (botocore_error t)) w w' h = cc

  access_lem :
      (s3 : C) (key : Text) (w w' : W)
      → has_s3_access aws s3 key w ≡ (ok true, w')
      → Accessible aws s3 key
  unfolding has_s3_access Accessible
  access_lem s3 key w w' h =
      let p = aws.head_object s3 (full_key key) w in
      elim (probed_lem p.0 p.1 w' h) [
        | inl e ↦ (w, p.1, inl (ap (λ (r : Result AwsError (Unit {0})). (r, p.1)) e))
        | inr e ↦ (w, p.1, inr (ap (λ (r : Result AwsError (Unit {0})). (r, p.1)) e))
      ]

  gives :
      {A : Type 0} (handler : AwsError → Unresolved) (m : Exec W AwsError A) (w w' : W) {a : A}
      → recast aws handler m w ≡ (ok a, w')
      → Gives aws m a
  unfolding Gives
  gives handler m w w' h = (w, w', recast_lem handler m w w' h)

  tried_lem :
      (r : Result AwsError Credentials) (w w' : W) {creds : Credentials}
      → tried aws (r, w) ≡ (ok (some creds), w')
      → r ≡ ok creds
  unfolding tried
  tried_lem (ok c) w w' h = ground arith
  tried_lem (raise (client_error n)) w w' h = cc
  tried_lem (raise no_credentials) w w' h = cc
  tried_lem (raise (botocore_error t)) w w' h = cc

  attempt_lem :
      (sts : C) (arn : Text) (w w' : W) {creds : Credentials}
      → attempt_role aws sts arn w ≡ (ok (some creds), w')
      → Gives aws (aws.assume_role sts arn) creds
  unfolding attempt_role Gives
  attempt_lem sts arn w w' h =
      let p = aws.assume_role sts arn w in
      (w, p.1, ap (λ (r : Result AwsError Credentials). (r, p.1)) (tried_lem p.0 p.1 w' h))

  settled_lem :
      (s s3 : C) (access : Bool) (w w' : W)
      → pure {S = W} {E = Unresolved} (if_accessible aws s access) w ≡ (ok (some s3), w')
      → (access ≡ true) × (s ≡ s3)
  unfolding if_accessible pure
  settled_lem s s3 true w w' h = (refl, ground arith)
  settled_lem s s3 false w w' h = cc

  pure_lem :
      {A : Type 0} (a b : A) (w w' : W) → pure {S = W} {E = Unresolved} a w ≡ (ok b, w') → a ≡ b
  unfolding pure
  pure_lem a b w w' h = ground arith

  -- The client that the second stage settles on.
  with_role_lem :
      (key : Text) (o : Option Credentials) (w w' : W) {s3 : C}
      → with_role aws key o w ≡ (ok (some s3), w')
      → (creds : Credentials) × (o ≡ some creds)
        × Gives aws (aws.client (codes "s3") (some creds)) s3
        × Accessible aws s3 key
  unfolding with_role pure
  with_role_lem key none w w' h = cc
  with_role_lem key (some creds) w w' {s3 = s3} h =
      let (s, w₁, made, h₁) =
        >>=-succeeds (recast aws uncaught (aws.client (codes "s3") (some creds))) _ w h in
      let (access, w₂, seen, h₂) =
        >>=-succeeds (recast aws uncaught (has_s3_access aws s key)) _ w₁ h₁ in
      let (accepted, same) = settled_lem s s3 access w₂ w' h₂ in
      let found : Accessible aws s key =
        access_lem s key w₁ w₂
          (recast_lem uncaught (has_s3_access aws s key) w₁ w₂ (rw accepted at seen)) in
      (
        creds,
        refl,
        subst (Gives aws (aws.client (codes "s3") (some creds))) same (gives uncaught _ w w₁ made),
        subst (λ (c : C). Accessible aws c key) same found,
      )

  stage_two_lem :
      (sts : C) (config : List (Text × Text)) (key : Text) (w w' : W) {s3 : C}
      → Gives aws (aws.client (codes "sts") none) sts
      → stage_two aws sts config key w ≡ (ok (some s3), w')
      → Direct aws config key s3
  unfolding stage_two Named Gives
  stage_two_lem sts config key w w' g h =
      let (arn, w₁, named, h₁) =
        >>=-succeeds (role_arn aws (codes "SERVER_ARTIFACTS_ROLE_ARN") config) _ w h in
      let (o, w₂, tries, h₂) = >>=-succeeds (attempt_role aws sts arn) (with_role aws key) w₁ h₁ in
      let (creds, e, made, accessible) = with_role_lem key o w₂ w' h₂ in
      record {
        sts = sts;
        arn = arn;
        creds = creds;
        sts_made = g;
        named = (w, w₁, named);
        assumed = attempt_lem sts arn w₁ w₂ (rw e at tries);
        made = made;
        accessible = accessible;
      }

  stage_three_lem :
      (sts : C) (config : List (Text × Text)) (w w' : W) {s3 : C}
      → Gives aws (aws.client (codes "sts") none) sts
      → stage_three aws sts config w ≡ (ok s3, w')
      → Chained aws config s3
  unfolding stage_three Named Gives
  stage_three_lem sts config w w' g h =
      let (secrets_arn, w₁, n₁, h₁) =
        >>=-succeeds (role_arn aws (codes "DRIVERS_TEST_SECRETS_ROLE_ARN") config) _ w h in
      let (secrets, w₂, a₁, h₂) =
        >>=-succeeds (recast aws assume_error (aws.assume_role sts secrets_arn)) _ w₁ h₁ in
      let (secrets_sts, w₃, m₁, h₃) =
        >>=-succeeds (recast aws assume_error (aws.client (codes "sts") (some secrets))) _ w₂ h₂ in
      let (arn, w₄, n₂, h₄) =
        >>=-succeeds (role_arn aws (codes "SERVER_ARTIFACTS_ROLE_ARN") config) _ w₃ h₃ in
      let (creds, w₅, a₂, m₂) =
        >>=-succeeds (recast aws assume_error (aws.assume_role secrets_sts arn)) _ w₄ h₄ in
      record {
        sts = sts;
        secrets_sts = secrets_sts;
        secrets_arn = secrets_arn;
        arn = arn;
        secrets = secrets;
        creds = creds;
        sts_made = g;
        secrets_named = (w, w₁, n₁);
        secrets_assumed = gives assume_error _ w₁ w₂ a₁;
        secrets_made = gives assume_error _ w₂ w₃ m₁;
        named = (w₃, w₄, n₂);
        assumed = gives assume_error _ w₄ w₅ a₂;
        made = gives uncaught _ w₅ w' m₂;
      }

  later_stages-Source :
      (vault key : Text) (w w' : W) {s3 : C}
      → later_stages aws vault key w ≡ (ok s3, w')
      → Source aws vault key s3
  unfolding later_stages or_stage_three Gives
  later_stages-Source vault key w w' {s3 = s3} h =
      let (config, w₁, read, h₁) = >>=-succeeds (read_vault aws vault) _ w h in
      let (sts, w₂, made, h₂) =
        >>=-succeeds (recast aws uncaught (aws.client (codes "sts") none)) _ w₁ h₁ in
      let (o, w₃, two, h₃) =
        >>=-succeeds (stage_two aws sts config key) (or_stage_three aws sts config) w₂ h₂ in
      by config sts (w, w₁, read) (gives uncaught _ w₁ w₂ made) o w₂ w₃ two h₃
    where
      by :
          (config : List (Text × Text)) (sts : C)
          → Gives aws (read_vault aws vault) config
          → Gives aws (aws.client (codes "sts") none) sts
          → (o : Option C) (w₂ w₃ : W) → stage_two aws sts config key w₂ ≡ (ok o, w₃)
          → or_stage_three aws sts config o w₃ ≡ (ok s3, w')
          → Source aws vault key s3
      by config sts read made none w₂ w₃ two h =
          chained config read (stage_three_lem sts config w₃ w' made h)
      by config sts read made (some c) w₂ w₃ two h = direct config read (
          subst (Direct aws config key) (pure_lem c s3 w₃ w' h)
            (stage_two_lem sts config key w₂ w₃ made two))

  -- A client for the private artifacts, if there is one, was made with the rights that are there and
  -- probed with the key; or with the role of the artifacts that the vault names, and probed; or
  -- with that role assumed by the role of the secrets that the vault names.
  pub resolve_s3_client-Source :
      (env : Option Text) (key : Text) (w w' : W) {s3 : C}
      → resolve_s3_client aws env key w ≡ (ok s3, w')
      → Source aws (vault_of env) key s3
  unfolding resolve_s3_client ambient_or_later
  resolve_s3_client-Source env key w w' {s3 = s3} h =
      let (s, w₁, made, h₁) =
        >>=-succeeds (recast aws uncaught (aws.client (codes "s3") none)) _ w h in
      let (access, w₂, seen, h₂) =
        >>=-succeeds (recast aws uncaught (has_s3_access aws s key)) _ w₁ h₁ in
      by s (gives uncaught _ w w₁ made) access w₁ w₂
        (recast_lem uncaught (has_s3_access aws s key) w₁ w₂ seen) h₂
    where
      by :
          (s : C)
          → Gives aws (aws.client (codes "s3") none) s
          → (access : Bool) (w₁ w₂ : W) → has_s3_access aws s key w₁ ≡ (ok access, w₂)
          → ambient_or_later aws (vault_of env) key s access w₂ ≡ (ok s3, w')
          → Source aws (vault_of env) key s3
      by s made true w₁ w₂ seen h = ambient (
          subst (Ambient aws key) (pure_lem s s3 w₂ w' h)
            (record { made = made; accessible = access_lem s key w₁ w₂ seen }))
      by s made false w₁ w₂ seen h = later_stages-Source (vault_of env) key w₂ w' h

  -- Each URL is made by the client for the key at its place.
  pub Signs : C → Text → Text → Type 0
  Signs s3 key url = Gives aws (aws.generate_presigned_url s3 (full_key key)) url

  presign-Both :
      (s3 : C) (keys urls : List Text) (w w' : W)
      → presign aws s3 keys w ≡ (ok urls, w')
      → Both (Signs s3) keys urls
  unfolding presign Signs
  presign-Both s3 [] urls w w' h = subst (Both (Signs s3) []) (pure_lem [] urls w w' h) tt
  presign-Both s3 (key ∷ keys) urls w w' h =
      let (url, w₁, made, h₁) =
        >>=-succeeds (recast aws uncaught (aws.generate_presigned_url s3 (full_key key))) _ w h in
      let (more, w₂, rest, h₂) = >>=-succeeds (presign aws s3 keys) _ w₁ h₁ in
      subst (Both (Signs s3) (key ∷ keys)) (pure_lem (url ∷ more) urls w₂ w' h₂) (
        gives uncaught (aws.generate_presigned_url s3 (full_key key)) w w₁ made,
        presign-Both s3 keys more w₁ w₂ rest,
      )

  -- The URLs, if there are any, are one for each key and in the order of the keys, all made by one
  -- client, whose rights were settled by the first key alone: those that are there, or the role of
  -- the artifacts, each probed with that key, or that role assumed by the role of the secrets.
  pub presigned_urls-Source :
      (env : Option Text) (key : Text) (keys : List Text) (w w' : W) {urls : List Text}
      → presigned_urls aws env key keys w ≡ (ok urls, w')
      → (s3 : C) × Source aws (vault_of env) key s3 × Both (Signs s3) (key ∷ keys) urls
  unfolding presigned_urls
  presigned_urls-Source env key keys w w' {urls = urls} h =
      let (s3, w₁, resolved, signed) =
        >>=-succeeds (resolve_s3_client aws env key) (λ s. presign aws s (key ∷ keys)) w h in
      (
        s3,
        resolve_s3_client-Source env key w w₁ resolved,
        presign-Both s3 (key ∷ keys) urls w₁ w' signed,
      )
