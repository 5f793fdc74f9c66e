-- ===== src/MockKms/RoundTrip.antt =====
-- What the mock encrypts it decrypts.
use drivers_evergreen_tools.Common.{suc, ◌≡◌, refl, true, false, [], ◌∷◌, ◌++◌, Option, some}
use drivers_evergreen_tools.Common.Text.{Text, codes, text_eq}
use drivers_evergreen_tools.MockKms.{
  Base64, IsInverse, State, Request, send_json, secret_prefix, behind, has_fault, encrypted,
  do_encrypt, decrypted, without_prefix, do_decrypt, is_header, operation, do_post,
}

-- A request that KMS would take.
abbrev pub signed : Text → (Text → Option Text) → Request
signed target body = record {
  path = codes "/";
  host = some (codes "localhost");
  signature_valid = true;
  target = some target;
  body = body;
}

-- Where neither fault is active, a signed request to encrypt is answered with a ciphertext, and the
-- signed request to decrypt that ciphertext with the plaintext; each counts as one call of its
-- kind, and no fault is counted.
pub do_post-round_trip :
    (base64 : Base64)
    → IsInverse base64
    → (st : State) → has_fault (codes "fault_encrypt") st ≡ false
    → has_fault (codes "fault_decrypt") st ≡ false
    → (plaintext keyid : Text) (body : Text → Option Text)
    → body (codes "Plaintext") ≡ some plaintext
    → body (codes "KeyId") ≡ some keyid
    → (ciphertext : Text) × (do_post base64 (signed (codes "TrentService.Encrypt") body) st ≡ (
      send_json ((codes "CiphertextBlob", ciphertext) ∷ (codes "KeyId", keyid) ∷ []),
      record st { encrypt_calls = suc st.encrypt_calls },
    ))
      × ((later : Text → Option Text)
          → later (codes "CiphertextBlob") ≡ some ciphertext
          → do_post base64
              (signed (codes "TrentService.Decrypt") later)
              (record st { encrypt_calls = suc st.encrypt_calls })
            ≡ (
              send_json ((codes "Plaintext", plaintext) ∷ (codes "KeyId", codes "Not a clue") ∷ []),
              record st {
                encrypt_calls = suc st.encrypt_calls;
                decrypt_calls = suc st.decrypt_calls;
              },
            ))
unfolding do_post operation is_header do_encrypt encrypted do_decrypt decrypted without_prefix
    behind text_eq IsInverse has_fault
do_post-round_trip base64 law st no_encrypt no_decrypt plaintext keyid body hp hk =
    let ciphertext = base64.b64encode (secret_prefix ++ plaintext) in
    (
      ciphertext,
      rw (hp, hk, no_encrypt) refl,
      λ later h. rw (h, law (secret_prefix ++ plaintext), no_decrypt) refl,
    )
