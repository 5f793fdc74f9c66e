-- ===== src/Artifacts/Resolve/Source.antt =====
-- Where a client of the private server artifacts may come from.
use drivers_evergreen_tools.Common.{◌≡◌, ◌⊎◌, List, none, some, ok, raise}
use drivers_evergreen_tools.Common.Exec.{Exec}
use drivers_evergreen_tools.Common.Text.{Text, codes}
use drivers_evergreen_tools.Artifacts.Resolve.{
  client_error, Credentials, Aws, full_key, role_arn, read_vault,
}

module _ {W C : Type 0} (aws : Aws W C) where
  -- A call gives a value in some world.
  unfoldable pub Gives : {E A : Type 0} → Exec W E A → A → Type 0
  Gives m a = (w : W) × (w' : W) × (m w ≡ (ok a, w'))

  -- The probe finds the object, or learns that it is not there.
  unfoldable pub Accessible : C → Text → Type 0
  Accessible s3 key =
      (w : W) × (w' : W) × ((aws.head_object s3 (full_key key) w ≡ (ok tt, w'))
        ⊎ (aws.head_object s3 (full_key key) w ≡ (raise (client_error 404), w')))

  -- The role that the configuration names for `key`.
  unfoldable pub Named : Text → List (Text × Text) → Text → Type 0
  Named key config arn = Gives (role_arn aws key config) arn

  -- The identity that is there, probed.
  pub record Ambient (key : Text) (s3 : C) : Type 0 where
    pub made : Gives (aws.client (codes "s3") none) s3
    pub accessible : Accessible s3 key

  -- The role of the artifacts, assumed directly, probed.
  pub record Direct (config : List (Text × Text)) (key : Text) (s3 : C) : Type 0 where
    pub sts : C
    pub arn : Text
    pub creds : Credentials
    pub sts_made : Gives (aws.client (codes "sts") none) sts
    pub named : Named (codes "SERVER_ARTIFACTS_ROLE_ARN") config arn
    pub assumed : Gives (aws.assume_role sts arn) creds
    pub made : Gives (aws.client (codes "s3") (some creds)) s3
    pub accessible : Accessible s3 key

  -- The role of the artifacts, assumed by the role of the secrets.
  pub record Chained (config : List (Text × Text)) (s3 : C) : Type 0 where
    pub sts : C
    pub secrets_sts : C
    pub secrets_arn : Text
    pub arn : Text
    pub secrets : Credentials
    pub creds : Credentials
    pub sts_made : Gives (aws.client (codes "sts") none) sts
    pub secrets_named : Named (codes "DRIVERS_TEST_SECRETS_ROLE_ARN") config secrets_arn
    pub secrets_assumed : Gives (aws.assume_role sts secrets_arn) secrets
    pub secrets_made : Gives (aws.client (codes "sts") (some secrets)) secrets_sts
    pub named : Named (codes "SERVER_ARTIFACTS_ROLE_ARN") config arn
    pub assumed : Gives (aws.assume_role secrets_sts arn) creds
    pub made : Gives (aws.client (codes "s3") (some creds)) s3

  -- Where a client comes from.
  pub data Source (vault key : Text) (s3 : C) : Type 0 where
    ambient : Ambient key s3 → Source vault key s3
    direct :
        (config : List (Text × Text))
        → Gives (read_vault aws vault) config
        → Direct config key s3
        → Source vault key s3
    chained :
        (config : List (Text × Text))
        → Gives (read_vault aws vault) config
        → Chained config s3
        → Source vault key s3
