-- ===== src/Secrets.antt =====
-- The secrets of the vaults: `get_secrets` and `write_secrets` of secrets_handling/setup_secrets.py.
-- What AWS and the environment give are arguments; the values of a secret are text.
pub mod Fetched
pub mod Tests
use drivers_evergreen_tools.Common.{
  ℕ, ◌-◌, Bool, true, false, ◌&&◌, ◌||◌, not, List, [], ◌∷◌, ◌++◌, Option, none, some, leb,
  if◌then◌else◌, Result, ok, raise,
}
use drivers_evergreen_tools.Common.Exec.{Exec, pure, stop, ◌>>=◌}
use drivers_evergreen_tools.Common.Text.{Text, codes, text_eq}

pub data Failure : Type 0 where
  -- a BotoCoreError or a ClientError
  aws_error : Text → Failure
  other_error : Text → Failure

pub data Error : Type 0 where
  -- the ValueError that asks for a profile
  no_profile : Error
  -- sys.exit(1), with the error that is printed
  exits : Text → Error
  failed : Failure → Error

pub record Host (W C : Type 0) : Type 0 where
  -- os.environ.get("AWS_PROFILE")
  pub env_profile : Option Text
  -- "AWS_ACCESS_KEY_ID" in os.environ
  pub has_key : Bool
  -- The role of the secrets, assumed with a client of a session with this profile. The first error
  -- is that of making the client, which nothing catches.
  pub sts : Option Text → Exec W Failure C
  pub assume_role : C → Exec W Failure Text
  -- The client for the vaults, with the credentials of a role or without.
  pub client : Option Text → Option Text → Exec W Failure C
  pub get_secret_value : C → Text → Exec W Failure Text
  -- json.loads
  pub loads : Text → Result Text (List (Text × Text))

-- not profile
abbrev is_void : Option Text → Bool
is_void none = true
is_void (some []) = true
is_void (some (c ∷ s)) = false

module _ {W C : Type 0} (host : Host W C) where
  -- profile or os.environ.get("AWS_PROFILE")
  unfoldable pub profile_of : Option Text → Option Text
  profile_of profile = if is_void profile then host.env_profile else profile

  unfoldable pub needs_role : Option Text → Bool
  needs_role profile = not host.has_key && is_void profile

  recast_end : {A : Type 0} → (Failure → Error) → Result Failure A × W → Result Error A × W
  recast_end handler (ok a, w) = (ok a, w)
  recast_end handler (raise e, w) = (raise (handler e), w)

  recast : {A : Type 0} → (Failure → Error) → Exec W Failure A → Exec W Error A
  unfolding recast_end
  recast handler m w = recast_end handler (m w)

  -- The client with the role.
  unfoldable pub role_client : Option Text → Exec W Error C
  unfolding recast
  role_client profile = do
    sts ← recast failed (host.sts profile)
    creds ← recast (λ e. no_profile) (host.assume_role sts)
    recast failed (host.client profile (some creds))

  unfoldable pub read_all : C → List Text → Exec W Failure (List Text)
  read_all c [] = pure []
  read_all c (vault ∷ vaults) = do
    secret ← host.get_secret_value c vault
    secrets ← read_all c vaults
    pure (secret ∷ secrets)

  -- The handlers, where the role was assumed.
  unfoldable pub last_error : Failure → Error
  last_error (aws_error t) = exits t
  last_error (other_error t) = failed (other_error t)

  -- The call with assume_role=True.
  unfoldable pub with_role : List Text → Option Text → Exec W Error (List Text)
  unfolding recast last_error
  with_role vaults profile = role_client profile >>= λ c. recast last_error (read_all c vaults)

  -- The handlers, where it was not: `again` is one more call.
  or_again :
      Exec W Error (List Text) → Result Failure (List Text) × W → Result Error (List Text) × W
  or_again again (ok secrets, w) = (ok secrets, w)
  or_again again (raise (aws_error t), w) = again w
  or_again again (raise (other_error t), w) = (raise (failed (other_error t)), w)

  reading : List Text → Option Text → C → Exec W Error (List Text)
  unfolding or_again
  reading vaults profile c w = or_again (with_role vaults profile) (read_all c vaults w)

  -- The secrets as they were read.
  unfoldable pub fetch : List Text → Option Text → Exec W Error (List Text)
  unfolding recast reading
  fetch vaults profile =
      let plain =
        recast failed (host.client (profile_of profile) none)
        >>= reading vaults (profile_of profile) in
      if needs_role (profile_of profile) then with_role vaults (profile_of profile) else plain

  parsed : Result Text (List (Text × Text)) → Exec W Error (List (Text × Text))
  parsed (ok secret) = pure secret
  parsed (raise t) = stop (failed (other_error t))

  parse_all : List Text → Exec W Error (List (List (Text × Text)))
  unfolding parsed
  parse_all [] = pure []
  parse_all (secret ∷ secrets) = do
    value ← parsed (host.loads secret)
    values ← parse_all secrets
    pure (value ∷ values)

  -- `get_secrets`
  unfoldable pub get_secrets : List Text → Option Text → Exec W Error (List (List (Text × Text)))
  unfolding parse_all
  get_secrets vaults profile = fetch vaults profile >>= parse_all

-- str.upper of ASCII text
unfoldable pub upper : Text → Text
upper [] = []
upper (c ∷ s) = (if leb b'a' c && leb c b'z' then c - 32 else c) ∷ upper s

-- pairs[key] = val
unfoldable pub put : Text → Text → List (Text × Text) → List (Text × Text)
put key val [] = (key, val) ∷ []
put key val ((k, v) ∷ pairs) =
    let rest = put key val pairs in if text_eq k key then (key, val) ∷ pairs else (k, v) ∷ rest

unfoldable pub put_secret : List (Text × Text) → List (Text × Text) → List (Text × Text)
unfolding put upper
put_secret [] pairs = pairs
put_secret ((key, val) ∷ secret) pairs = put_secret secret (put (upper key) val pairs)

unfoldable pub put_all : List (List (Text × Text)) → List (Text × Text) → List (Text × Text)
unfolding put_secret
put_all [] pairs = pairs
put_all (secret ∷ secrets) pairs = put_all secrets (put_secret secret pairs)

lines : List (Text × Text) → Text
lines [] = []
lines ((key, val) ∷ pairs) =
    codes "export " ++ (key ++ b'=' ∷ b'"' ∷ (val ++ b'"' ∷ 10 ∷ lines pairs))

-- `write_secrets`: the contents of secrets-export.sh.
unfoldable pub write_secrets :
    {W C : Type 0} → Host W C → List Text → Option Text → Exec W Error Text
unfolding put_all lines
write_secrets host vaults profile = do
  secrets ← get_secrets host vaults profile
  pure
      (codes "#!/usr/bin/env bash" ++ 10 ∷ 10 ∷ (codes "set +x" ++ 10 ∷ lines (put_all secrets [])))
