-- ===== src/MockKms/Tests.antt =====
-- Requests to the mock server.
use drivers_evergreen_tools.Common.{
  suc, ◌≡◌, refl, true, false, [], ◌∷◌, Option, none, some, if◌then◌else◌,
}
use drivers_evergreen_tools.Common.Text.{Text, codes, text_eq}
use drivers_evergreen_tools.MockKms.{
  Base64, IsInverse, State, counts, internal_error, send_json, do_get, do_post, do_encrypt,
  encrypt_faults, has_fault, behind, main,
}
use drivers_evergreen_tools.MockKms.RoundTrip.{signed, do_post-round_trip}

-- A code that marks what is encoded.
abbrev marked : Base64
marked = record {
  b64encode = λ s. b'=' ∷ s;
  b64decode = λ s. elim s [ [] ↦ none | c ∷ cs ↦ some cs ];
}

abbrev body : Text → Option Text
body key = if text_eq key (codes "Plaintext") then some (codes "key") else some (codes "arn")

-- Two calls, one of which failed; the faults are disabled.
abbrev state : State
state = record {
  encrypt_calls = 1;
  decrypt_calls = 1;
  fault_calls = 1;
  disable_faults = true;
  fault_type = some (codes "fault_encrypt");
}

abbrev enabled : State
enabled = (do_get (codes "/enable_faults") state).1

a_fault :
    do_post marked (signed (codes "TrentService.Encrypt") body) enabled
    ≡ (internal_error, record enabled { encrypt_calls = 2; fault_calls = 2 })
unfolding do_post do_get do_encrypt encrypt_faults has_fault behind text_eq
a_fault = refl

the_counts : (do_get (codes "/stats") state).0 ≡ counts 1 1 1
unfolding do_get text_eq
the_counts = refl

no_such_fault : main (some (codes "fault_oauth")) false ≡ none
unfolding main text_eq
no_such_fault = refl

marked-IsInverse : IsInverse marked
unfolding IsInverse
marked-IsInverse s = refl

do_post-round_trip_example :
    (ciphertext : Text) × (do_post marked (signed (codes "TrentService.Encrypt") body) state ≡ (
      send_json ((codes "CiphertextBlob", ciphertext) ∷ (codes "KeyId", codes "arn") ∷ []),
      record state { encrypt_calls = suc state.encrypt_calls },
    ))
    × ((later : Text → Option Text)
        → later (codes "CiphertextBlob") ≡ some ciphertext
        → do_post marked
            (signed (codes "TrentService.Decrypt") later)
            (record state { encrypt_calls = suc state.encrypt_calls })
          ≡ (
            send_json ((codes "Plaintext", codes "key") ∷ (codes "KeyId", codes "Not a clue") ∷ []),
            record state {
              encrypt_calls = suc state.encrypt_calls;
              decrypt_calls = suc state.decrypt_calls;
            },
          ))
unfolding text_eq has_fault behind
do_post-round_trip_example =
    do_post-round_trip marked marked-IsInverse state refl refl (codes "key") (codes "arn") body refl
      refl
