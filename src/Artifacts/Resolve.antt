-- ===== src/Artifacts/Resolve.antt =====
-- The client for the private server artifacts: `_has_s3_access`, `_resolve_s3_client` and
-- `presigned_urls` of server_artifacts.py. What AWS answers, and how that changes the world, is an
-- argument.
pub mod Source
pub mod Stages
use drivers_evergreen_tools.Common.{
  ℕ, Bool, true, false, List, [], ◌∷◌, ◌++◌, Option, none, some, ◌==◌, if◌then◌else◌, Result, ok,
  raise,
}
use drivers_evergreen_tools.Common.Exec.{Exec, pure, stop, ◌>>=◌}
use drivers_evergreen_tools.Common.Text.{Text, codes, text_eq}

pub data AwsError : Type 0 where
  -- ClientError, with the status of the answer
  client_error : ℕ → AwsError
  -- NoCredentialsError
  no_credentials : AwsError
  -- any other BotoCoreError
  botocore_error : Text → AwsError

pub data Unresolved : Type 0 where
  -- NoAWSCredentialsError, with its cause
  no_aws_credentials : AwsError → Unresolved
  -- VaultAccessDeniedError, with the vault
  vault_access_denied : Text → Unresolved
  -- RoleAssumptionError
  role_assumption : Unresolved
  -- an error of botocore that nothing catches
  uncaught : AwsError → Unresolved
  -- a secret that is no JSON, or a key that it lacks
  bad_config : Text → Unresolved

pub record Credentials : Type 0 where
  pub access_key_id : Text
  pub secret_access_key : Text
  pub session_token : Text

pub record Aws (W C : Type 0) : Type 0 where
  -- `_boto3_client` in the region of the artifacts
  pub client : Text → Option Credentials → Exec W AwsError C
  pub head_object : C → Text → Exec W AwsError (Unit {0})
  pub get_secret_value : C → Text → Exec W AwsError Text
  -- json.loads
  pub loads : Text → Result Text (List (Text × Text))
  pub assume_role : C → Text → Exec W AwsError Credentials
  pub generate_presigned_url : C → Text → Exec W AwsError Text

unfoldable pub full_key : Text → Text
full_key key = codes "server-latest/" ++ key

-- os.environ.get("SERVER_ARTIFACTS_SECRET_VAULT", _DEFAULT_SECRET_VAULT)
unfoldable pub vault_of : Option Text → Text
vault_of none = codes "drivers/devprod-release-infrastructure"
vault_of (some vault) = vault

-- The handlers around the reading of the vault.
unfoldable pub vault_error : Text → AwsError → Unresolved
vault_error vault (client_error status) = vault_access_denied vault
vault_error vault no_credentials = no_aws_credentials no_credentials
vault_error vault (botocore_error t) = no_aws_credentials (botocore_error t)

-- The handler around the third stage.
unfoldable pub assume_error : AwsError → Unresolved
assume_error (client_error status) = role_assumption
assume_error no_credentials = role_assumption
assume_error (botocore_error t) = uncaught (botocore_error t)

member : Text → List (Text × Text) → Option Text
member key [] = none
member key ((k, v) ∷ config) =
    let rest = member key config in if text_eq k key then some v else rest

module _ {W C : Type 0} (aws : Aws W C) where
  probed : Result AwsError (Unit {0}) × W → Result AwsError Bool × W
  probed (ok found, w) = (ok true, w)
  probed (raise (client_error status), w) =
      if status == 404
      then (ok true, w)
      else if status == 403
      then (ok false, w)
      else (raise (client_error status), w)
  probed (raise no_credentials, w) = (ok false, w)
  probed (raise (botocore_error t), w) = (raise (botocore_error t), w)

  -- `_has_s3_access`
  unfoldable pub has_s3_access : C → Text → Exec W AwsError Bool
  unfolding probed
  has_s3_access s3 key w = probed (aws.head_object s3 (full_key key) w)

  recast_end :
      {A : Type 0} → (AwsError → Unresolved) → Result AwsError A × W → Result Unresolved A × W
  recast_end handler (ok a, w) = (ok a, w)
  recast_end handler (raise e, w) = (raise (handler e), w)

  -- A call inside a `try`, whose handlers are `handler`.
  recast : {A : Type 0} → (AwsError → Unresolved) → Exec W AwsError A → Exec W Unresolved A
  unfolding recast_end
  recast handler m w = recast_end handler (m w)

  parsed : Result Text (List (Text × Text)) → Exec W Unresolved (List (Text × Text))
  parsed (ok config) = pure config
  parsed (raise t) = stop (bad_config t)

  found_arn : Text → Option Text → Exec W Unresolved Text
  found_arn key none = stop (bad_config key)
  found_arn key (some arn) = pure arn

  -- config[key]
  pub role_arn : Text → List (Text × Text) → Exec W Unresolved Text
  unfolding found_arn member
  role_arn key config = found_arn key (member key config)

  unfoldable pub read_vault : Text → Exec W Unresolved (List (Text × Text))
  unfolding recast parsed
  read_vault vault = do
    secretsmanager ← recast (vault_error vault) (aws.client (codes "secretsmanager") none)
    secret ← recast (vault_error vault) (aws.get_secret_value secretsmanager vault)
    parsed (aws.loads secret)

  tried : Result AwsError Credentials × W → Result Unresolved (Option Credentials) × W
  tried (ok creds, w) = (ok (some creds), w)
  tried (raise (client_error status), w) = (ok none, w)
  tried (raise no_credentials, w) = (ok none, w)
  tried (raise (botocore_error t), w) = (raise (uncaught (botocore_error t)), w)

  attempt_role : C → Text → Exec W Unresolved (Option Credentials)
  unfolding tried
  attempt_role sts arn w = tried (aws.assume_role sts arn w)

  if_accessible : C → Bool → Option C
  if_accessible s3 true = some s3
  if_accessible s3 false = none

  with_role : Text → Option Credentials → Exec W Unresolved (Option C)
  unfolding recast if_accessible
  with_role key none = pure none
  with_role key (some creds) = do
    s3 ← recast uncaught (aws.client (codes "s3") (some creds))
    access ← recast uncaught (has_s3_access s3 key)
    pure (if_accessible s3 access)

  -- Stage 2: the role of the artifacts, assumed directly.
  unfoldable pub stage_two : C → List (Text × Text) → Text → Exec W Unresolved (Option C)
  unfolding role_arn attempt_role with_role
  stage_two sts config key = do
    arn ← role_arn (codes "SERVER_ARTIFACTS_ROLE_ARN") config
    creds ← attempt_role sts arn
    with_role key creds

  -- Stage 3: the role of the secrets first, then that of the artifacts. The client is not probed.
  unfoldable pub stage_three : C → List (Text × Text) → Exec W Unresolved C
  unfolding role_arn recast
  stage_three sts config = do
    secrets_arn ← role_arn (codes "DRIVERS_TEST_SECRETS_ROLE_ARN") config
    secrets_creds ← recast assume_error (aws.assume_role sts secrets_arn)
    secrets_sts ← recast assume_error (aws.client (codes "sts") (some secrets_creds))
    arn ← role_arn (codes "SERVER_ARTIFACTS_ROLE_ARN") config
    creds ← recast assume_error (aws.assume_role secrets_sts arn)
    recast uncaught (aws.client (codes "s3") (some creds))

  or_stage_three : C → List (Text × Text) → Option C → Exec W Unresolved C
  unfolding stage_three
  or_stage_three sts config (some s3) = pure s3
  or_stage_three sts config none = stage_three sts config

  unfoldable pub later_stages : Text → Text → Exec W Unresolved C
  unfolding recast or_stage_three
  later_stages vault key = do
    config ← read_vault vault
    sts ← recast uncaught (aws.client (codes "sts") none)
    direct ← stage_two sts config key
    or_stage_three sts config direct

  ambient_or_later : Text → Text → C → Bool → Exec W Unresolved C
  ambient_or_later vault key s3 true = pure s3
  ambient_or_later vault key s3 false = later_stages vault key

  -- `_resolve_s3_client`, where `env` is SERVER_ARTIFACTS_SECRET_VAULT.
  unfoldable pub resolve_s3_client : Option Text → Text → Exec W Unresolved C
  unfolding recast ambient_or_later
  resolve_s3_client env key = do
    s3 ← recast uncaught (aws.client (codes "s3") none)
    access ← recast uncaught (has_s3_access s3 key)
    ambient_or_later (vault_of env) key s3 access

  unfoldable pub presign : C → List Text → Exec W Unresolved (List Text)
  unfolding recast
  presign s3 [] = pure []
  presign s3 (key ∷ keys) = do
    url ← recast uncaught (aws.generate_presigned_url s3 (full_key key))
    urls ← presign s3 keys
    pure (url ∷ urls)

  -- `presigned_urls` of one key and more.
  unfoldable pub presigned_urls : Option Text → Text → List Text → Exec W Unresolved (List Text)
  presigned_urls env key keys = resolve_s3_client env key >>= λ s3. presign s3 (key ∷ keys)
