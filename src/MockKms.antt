-- ===== src/MockKms.antt =====
-- The mock AWS KMS server: `KmsHandlerBase.do_GET` of csfle/kms_http_common.py, and `do_POST` and the
-- start of csfle/kms_http_server.py. The check of the signature, which is botocore's, and base64 are
-- arguments; the values of a request are text.
pub mod RoundTrip
pub mod Tests
use drivers_evergreen_tools.Common.{
  ℕ, suc, ◌+◌, ◌≡◌, Bool, true, false, ◌&&◌, not, List, [], ◌∷◌, ◌++◌, Option, none, some, any,
  ◌==◌, if◌then◌else◌,
}
use drivers_evergreen_tools.Common.Text.{Text, codes, text_eq}

-- base64.b64encode and b64decode of the UTF-8 of a text; none for an exception.
pub record Base64 : Type 0 where
  pub b64encode : Text → Text
  pub b64decode : Text → Option Text

-- What is encoded is decoded to itself.
unfoldable pub IsInverse : Base64 → Type 0
IsInverse base64 = (s : Text) → base64.b64decode (base64.b64encode s) ≡ some s

-- `stats`, `disable_faults` and `fault_type`
pub record State : Type 0 where
  pub encrypt_calls : ℕ
  pub decrypt_calls : ℕ
  pub fault_calls : ℕ
  pub disable_faults : Bool
  pub fault_type : Option Text

pub record Request : Type 0 where
  -- The path of `urlsplit(self.path)`
  pub path : Text
  -- self.headers["Host"]
  pub host : Option Text
  -- `_validate_signature`
  pub signature_valid : Bool
  -- self.headers["X-Amz-Target"]
  pub target : Option Text
  -- json.loads(raw_input)[key]; none for an exception
  pub body : Text → Option Text

pub data Reply : Type 0 where
  -- 200, with JSON or with a message
  send_json : List (Text × Text) → Reply
  message : Text → Reply
  -- 200, with the counters
  counts : ℕ → ℕ → ℕ → Reply
  -- 200, with no body
  empty : Reply
  -- 404
  not_found : Reply
  -- 500
  internal_error : Reply
  raised : Reply

abbrev pub secret_prefix : Text
secret_prefix = codes "00SECRET"

abbrev pub supported_fault_types : List Text
supported_fault_types =
    codes "fault_encrypt"
    ∷ codes "fault_encrypt_correct_format"
    ∷ codes "fault_encrypt_wrong_fields"
    ∷ codes "fault_encrypt_bad_base64"
    ∷ codes "fault_decrypt"
    ∷ codes "fault_decrypt_correct_format"
    ∷ codes "fault_decrypt_wrong_key"
    ∷ []

-- s[len(prefix):], if s starts with the prefix
unfoldable pub behind : Text → Text → Option Text
behind [] s = some s
behind (p ∷ prefix) [] = none
behind (p ∷ prefix) (c ∷ s) = let rest = behind prefix s in if c == p then rest else none

is_some : Option Text → Bool
is_some none = false
is_some (some s) = true

unfoldable pub has_fault : Text → State → Bool
unfolding is_some
has_fault prefix st = by st.fault_type
  where
    by : Option Text → Bool
    by none = false
    by (some fault) = is_some (behind prefix fault) && not st.disable_faults

-- `do_GET`
unfoldable pub do_get : Text → State → Reply × State
do_get path st =
    if text_eq path (codes "/stats")
    then (counts st.decrypt_calls st.encrypt_calls st.fault_calls, st)
    else if text_eq path (codes "/disable_faults")
    then (empty, record st { disable_faults = true })
    else if text_eq path (codes "/enable_faults")
    then (empty, record st { disable_faults = false })
    else (not_found, st)

count_fault : State → State
count_fault st = record st { fault_calls = suc st.fault_calls }

not_found_exception : Text → Reply
not_found_exception text =
    send_json ((codes "__type", codes "NotFoundException") ∷ (codes "Message", text) ∷ [])

is_fault : Text → State → Bool
is_fault name st = by st.fault_type
  where
    by : Option Text → Bool
    by none = false
    by (some fault) = text_eq fault name

unfoldable pub encrypt_faults : Text → State → Reply
unfolding not_found_exception is_fault
encrypt_faults ciphertext st =
    if is_fault (codes "fault_encrypt") st
    then internal_error
    else if is_fault (codes "fault_encrypt_wrong_fields") st
    then send_json ((codes "SomeBlob", ciphertext) ∷ (codes "KeyId", codes "foo") ∷ [])
    else if is_fault (codes "fault_encrypt_bad_base64") st
    then send_json ((codes "CiphertextBlob", codes "foo") ∷ (codes "KeyId", codes "foo") ∷ [])
    else if is_fault (codes "fault_encrypt_correct_format") st
    then not_found_exception (codes "Error encrypting message")
    else raised

unfoldable pub decrypt_faults : State → Reply
unfolding not_found_exception is_fault
decrypt_faults st =
    if is_fault (codes "fault_decrypt") st
    then internal_error
    else if is_fault (codes "fault_decrypt_wrong_key") st
    then send_json (
        (
          codes "Plaintext",
          codes
              "ta7DXE7J0OiCRw03dYMJSeb8nVF5qxTmZ9zWmjuX4zW/SOorSCaY8VMTWG+cRInMx/rr/+QeVw2WjU2IpOSvMg==",
        )
        ∷ (codes "KeyId", codes "Not a clue")
        ∷ [])
    else if is_fault (codes "fault_decrypt_correct_format") st
    then not_found_exception (codes "Error decrypting message")
    else raised

module _ (base64 : Base64) where
  encrypted : Text → Text → State → Reply × State
  unfolding has_fault count_fault encrypt_faults
  encrypted ciphertext keyid st =
      if has_fault (codes "fault_encrypt") st
      then (encrypt_faults ciphertext st, count_fault st)
      else (send_json ((codes "CiphertextBlob", ciphertext) ∷ (codes "KeyId", keyid) ∷ []), st)

  -- `_do_encrypt`
  unfoldable pub do_encrypt : Option Text → Option Text → State → Reply × State
  unfolding encrypted
  do_encrypt none keyid st = (raised, st)
  do_encrypt (some plaintext) none st = (raised, st)
  do_encrypt (some plaintext) (some keyid) st =
      encrypted (base64.b64encode (secret_prefix ++ plaintext)) keyid st

  decrypted : Option Text → State → Reply × State
  unfolding has_fault count_fault decrypt_faults
  decrypted none st = (raised, st)
  decrypted (some plaintext) st =
      if has_fault (codes "fault_decrypt") st then (decrypt_faults st, count_fault st) else (
        send_json ((codes "Plaintext", plaintext) ∷ (codes "KeyId", codes "Not a clue") ∷ []),
        st,
      )

  without_prefix : Option Text → Option Text
  unfolding behind
  without_prefix none = none
  without_prefix (some blob) = behind secret_prefix blob

  -- `_do_decrypt`
  unfoldable pub do_decrypt : Option Text → State → Reply × State
  unfolding decrypted without_prefix
  do_decrypt none st = (raised, st)
  do_decrypt (some ciphertext) st = decrypted (without_prefix (base64.b64decode ciphertext)) st

  is_header : Text → Option Text → Bool
  is_header value none = false
  is_header value (some v) = text_eq v value

  operation : Request → State → Reply × State
  unfolding is_header do_encrypt do_decrypt
  operation r st =
      if is_header (codes "TrentService.Encrypt") r.target
      then do_encrypt (r.body (codes "Plaintext")) (r.body (codes "KeyId"))
          (record st { encrypt_calls = suc st.encrypt_calls })
      else if is_header (codes "TrentService.Decrypt") r.target
      then do_decrypt (r.body (codes "CiphertextBlob"))
          (record st { decrypt_calls = suc st.decrypt_calls })
      else (message (codes "Unknown AWS Operation"), st)

  -- `do_POST` with `_do_post`
  unfoldable pub do_post : Request → State → Reply × State
  unfolding is_header operation
  do_post r st =
      if not (text_eq r.path (codes "/"))
      then (not_found, st)
      else if not (is_header (codes "localhost") r.host)
      then (message (codes "Unexpected host"), st)
      else if not r.signature_valid
      then (message (codes "Bad Signature"), st)
      else operation r st

-- The state that the server starts with; none where it exits, for a fault that is not supported.
unfoldable pub main : Option Text → Bool → Option State
main fault disabled = by fault
  where
    state : Option Text → State
    state fault_type = record {
      encrypt_calls = 0;
      decrypt_calls = 0;
      fault_calls = 0;
      disable_faults = disabled;
      fault_type = fault_type;
    }

    by : Option Text → Option State
    by none = some (state none)
    by (some []) = some (state none)
    by (some (c ∷ s)) =
        if any (text_eq (c ∷ s)) supported_fault_types then some (state (some (c ∷ s))) else none
