-- ===== src/Artifacts/Tests.antt =====
-- Signatures that gpg accepts and refuses.
use drivers_evergreen_tools.Common.{
  ℕ, ◌+◌, ◌≡◌, refl, true, false, ◌||◌, Some, if◌then◌else◌, Both, Option, some, [], ◌∷◌, ◌++◌, any,
  ◌==◌, none, ok, raise,
}
use drivers_evergreen_tools.Common.Text.{Text, codes, text_eq, split}
use drivers_evergreen_tools.Artifacts.{
  Gpg, status_loop, status_line, by_keyword, is_expiry, pinned_fields, expired, not_pinned,
  is_pinned, status_lines, verify_gpg_signature, fetch_signature,
}
use drivers_evergreen_tools.Common.Exec.{◌>>=◌}
use drivers_evergreen_tools.Artifacts.Resolve.{
  client_error, Credentials, Aws, vault_of, resolve_s3_client, has_s3_access, presign,
  presigned_urls, read_vault, later_stages, stage_two, stage_three, full_key,
}
use drivers_evergreen_tools.Artifacts.Resolve.Source.{Source}
use drivers_evergreen_tools.Artifacts.Resolve.Stages.{Signs, presigned_urls-Source}
use drivers_evergreen_tools.Artifacts.Signed.{reports_expiry, ReportsValid, verify_gpg_signature-ok}

abbrev key : Text
key = codes "B3B42B6C39E5CDDEC0A27E3CF366D55B602E502D"

abbrev valid_line : Text
valid_line = codes "[GNUPG:] VALIDSIG B3B42B6C39E5CDDEC0A27E3CF366D55B602E502D 2026" ++ 10 ∷ []

abbrev good : Gpg
good = record { returncode = 0; stdout = codes "[GNUPG:] NEWSIG" ++ 10 ∷ valid_line; stderr = [] }

abbrev good_but_expired : Gpg
good_but_expired = record {
  returncode = 0;
  stdout = valid_line ++ codes "[GNUPG:] EXPSIG a b";
  stderr = [];
}

abbrev unknown_key : Gpg
unknown_key = record { returncode = 0; stdout = codes "[GNUPG:] VALIDSIG ABCD 2026"; stderr = [] }

good_accepted : verify_gpg_signature good ≡ ok key
unfolding verify_gpg_signature text_eq split status_lines status_loop status_line by_keyword
    is_expiry pinned_fields is_pinned
good_accepted = refl

expired_refused : verify_gpg_signature good_but_expired ≡ raise expired
unfolding verify_gpg_signature text_eq split status_lines status_loop status_line by_keyword
    is_expiry pinned_fields is_pinned
expired_refused = refl

unknown_refused : verify_gpg_signature unknown_key ≡ raise not_pinned
unfolding verify_gpg_signature text_eq split status_lines status_loop status_line by_keyword
    is_expiry pinned_fields is_pinned
unknown_refused = refl

missing_signature : fetch_signature (raise 403) ≡ ok none
unfolding fetch_signature
missing_signature = refl

verify_gpg_signature-ok_example :
    ((good.returncode == 0) ≡ true)
    × (any reports_expiry (status_lines good.stdout) ≡ false)
    × (is_pinned key ≡ true)
    × Some (ReportsValid key) (status_lines good.stdout)
verify_gpg_signature-ok_example = verify_gpg_signature-ok good key good_accepted

abbrev keys_of : Text → Credentials
keys_of name = record { access_key_id = name; secret_access_key = []; session_token = [] }

abbrev name_of : Option Credentials → Text
name_of none = codes "ambient"
name_of (some creds) = creds.access_key_id

-- A client is named by its rights; only those of the role of the artifacts find an object, and only
-- the role of the secrets may assume it. The world counts the calls.
abbrev cloud : Aws ℕ Text
cloud = record {
  client = λ service creds n. (ok (name_of creds), n + 1);
  head_object = λ s3 key n.
      if text_eq s3 (codes "artifacts") then (ok tt, n + 1) else (raise (client_error 403), n + 1);
  get_secret_value = λ c vault n. (ok vault, n + 1);
  loads = λ secret. ok (
      (codes "SERVER_ARTIFACTS_ROLE_ARN", codes "artifacts")
      ∷ (codes "DRIVERS_TEST_SECRETS_ROLE_ARN", codes "secrets")
      ∷ []);
  assume_role = λ sts arn n.
      if text_eq arn (codes "secrets") || text_eq sts (codes "secrets")
      then (ok (keys_of arn), n + 1)
      else (raise (client_error 403), n + 1);
  generate_presigned_url = λ s3 key n. (ok (codes "https://" ++ key), n + 1);
}

chained_urls :
    presigned_urls cloud none (codes "a") (codes "b" ∷ []) 0
    ≡ (ok (codes "https://server-latest/a" ∷ codes "https://server-latest/b" ∷ []), 12)
unfolding presigned_urls presign resolve_s3_client has_s3_access later_stages read_vault stage_two
    stage_three text_eq full_key ◌>>=◌
chained_urls = refl

presigned_urls-Source_example :
    (s3 : Text) × Source cloud (vault_of none) (codes "a") s3
    × Both
        (Signs cloud s3)
        (codes "a" ∷ codes "b" ∷ [])
        (codes "https://server-latest/a" ∷ codes "https://server-latest/b" ∷ [])
presigned_urls-Source_example =
    presigned_urls-Source cloud none (codes "a") (codes "b" ∷ []) 0 12 chained_urls
