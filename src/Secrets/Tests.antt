-- ===== src/Secrets/Tests.antt =====
-- Secrets of two vaults.
use drivers_evergreen_tools.Common.{
  ℕ, ◌+◌, ◌≡◌, refl, false, ◌||◌, List, [], ◌∷◌, ◌++◌, none, some, ok, raise, if◌then◌else◌,
}
use drivers_evergreen_tools.Common.Exec.{◌>>=◌}
use drivers_evergreen_tools.Common.Text.{Text, codes, text_eq}
use drivers_evergreen_tools.Secrets.{
  aws_error, Host, profile_of, needs_role, role_client, read_all, with_role, fetch, get_secrets,
  upper, put_all, write_secrets,
}
use drivers_evergreen_tools.Secrets.Fetched.{Fetched, fetch-Fetched}

-- A client is named by its role; the profile alone may only read the first vault. The world counts
-- the calls.
abbrev host : Host ℕ Text
host = record {
  env_profile = some (codes "dev");
  has_key = false;
  sts = λ profile n. (ok (codes "sts"), n + 1);
  assume_role = λ sts n. (ok (codes "role"), n + 1);
  client = λ profile creds n. (ok (elim creds [ none ↦ codes "plain" | some c ↦ c ]), n + 1);
  get_secret_value = λ c vault n.
      if text_eq c (codes "role") || text_eq vault (codes "a")
      then (ok (c ++ vault), n + 1)
      else (raise (aws_error (codes "denied")), n + 1);
  loads = λ secret. ok ((codes "key", secret) ∷ []);
}

abbrev vaults : List Text
vaults = codes "a" ∷ codes "b" ∷ []

fetched : fetch host vaults none 0 ≡ (ok (codes "rolea" ∷ codes "roleb" ∷ []), 8)
unfolding fetch profile_of needs_role role_client read_all with_role text_eq ◌>>=◌
fetched = refl

written :
    (write_secrets host vaults none 0).0
    ≡ ok (
        codes "#!/usr/bin/env bash"
        ++ 10
          ∷ 10
          ∷ (codes "set +x"
              ++ 10 ∷ (codes "export KEY=" ++ b'"' ∷ (codes "roleb" ++ b'"' ∷ 10 ∷ []))))
unfolding write_secrets get_secrets upper put_all fetch profile_of needs_role role_client read_all
    with_role text_eq ◌>>=◌
written = refl

fetch-Fetched_example :
    Fetched host (profile_of host none) vaults (codes "rolea" ∷ codes "roleb" ∷ [])
fetch-Fetched_example = fetch-Fetched host vaults none 0 8 fetched
