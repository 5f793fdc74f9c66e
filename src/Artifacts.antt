-- ===== src/Artifacts.antt =====
-- The signatures of latest builds: `_fetch_signature`, `_verify_gpg_signature` and
-- `verify_latest_build` of server_artifacts.py. What gpg and the server answer are arguments.
pub mod Resolve
pub mod Signed
pub mod Tests
use drivers_evergreen_tools.Common.{
  ℕ, zero, suc, Bool, true, false, ◌&&◌, ◌||◌, not, List, [], ◌∷◌, ◌++◌, Option, none, some, any,
  length, ltb, ◌==◌, if◌then◌else◌, Result, ok, raise, ◌>>=◌,
}
use drivers_evergreen_tools.Common.Text.{Text, codes, text_eq, split}
use drivers_evergreen_tools.Mongodl.Url.{contains}

pub data Error : Type 0 where
  -- GpgEnvironmentError
  gpg_environment : Text → Error
  -- RuntimeError of `_import_gpg_keys`
  import_failed : Text → Error
  -- ValueError, with the detail
  expired not_pinned : Error
  bad_signature : Text → Error
  -- Another answer of the server than 403 and 404.
  http_error : ℕ → Error

-- What `gpg --verify` answered.
pub record Gpg : Type 0 where
  pub returncode : ℕ
  pub stdout : Text
  pub stderr : Text

-- `_gpg_agent_failure`
unfoldable pub gpg_agent_failure : Text → Bool
gpg_agent_failure detail =
    contains (codes "gpg-agent") detail || contains (codes "connect to the agent") detail

-- Where `splitlines` ends a line. A carriage return before a line feed gives one more empty line
-- here, which the loop skips.
abbrev is_line_end : ℕ → Bool
is_line_end c = any (λ d. c == d) (10 ∷ 11 ∷ 12 ∷ 13 ∷ 28 ∷ 29 ∷ 30 ∷ 133 ∷ 8232 ∷ 8233 ∷ [])

lines_from : Text → Text → List Text
lines_from line [] = line ∷ []
lines_from line (c ∷ s) =
    let rest = lines_from [] s in
    let longer = lines_from (line ++ c ∷ []) s in if is_line_end c then line ∷ rest else longer

-- The words of each line of the output; an empty one at the end has none.
unfoldable pub status_lines : Text → List (List Text)
unfolding lines_from
status_lines output = words (lines_from [] output)
  where
    words : List Text → List (List Text)
    words [] = []
    words (line ∷ lines) = split line ∷ words lines

abbrev pub mongodb_gpg_key_fingerprints : List Text
mongodb_gpg_key_fingerprints =
    codes "B3B42B6C39E5CDDEC0A27E3CF366D55B602E502D"
    ∷ codes "4B0752C1BCA238C0B4EE14DC41DE058A4E7DCA05"
    ∷ []

unfoldable pub is_pinned : Text → Bool
is_pinned field = any (text_eq field) mongodb_gpg_key_fingerprints

-- The fields that are pinned fingerprints.
unfoldable pub pinned_fields : List Text → List Text
pinned_fields [] = []
pinned_fields (field ∷ fields) =
    let rest = pinned_fields fields in if is_pinned field then field ∷ rest else rest

unfoldable pub is_expiry : Text → Bool
is_expiry word =
    text_eq word (codes "EXPKEYSIG")
    || (text_eq word (codes "EXPSIG") || text_eq word (codes "REVKEYSIG"))

unfoldable pub by_keyword : Text → List Text → List Text × Bool → List Text × Bool
by_keyword word fields (fingerprints, bad) =
    if text_eq word (codes "VALIDSIG")
    then (fingerprints ++ pinned_fields fields, bad)
    else if is_expiry word
    then (fingerprints, true)
    else (fingerprints, bad)

-- One line of the loop: fewer than three fields, and other lines than those of gpg, are skipped.
unfoldable pub status_line : List Text → List Text × Bool → List Text × Bool
status_line (tag ∷ word ∷ third ∷ fields) state =
    if not (text_eq tag (codes "[GNUPG:]"))
    then state
    else by_keyword word (tag ∷ word ∷ third ∷ fields) state
status_line _ state = state

unfoldable pub status_loop : List (List Text) → List Text × Bool → List Text × Bool
status_loop [] state = state
status_loop (fields ∷ lines) state = status_loop lines (status_line fields state)

failure : Gpg → Bool → Error
failure proc bad =
    if not (proc.returncode == 0) && gpg_agent_failure proc.stderr
    then gpg_environment proc.stderr
    else if bad
    then expired
    else if proc.returncode == 0
    then not_pinned
    else bad_signature proc.stderr

unfoldable pub decide : Gpg → List Text × Bool → Result Error Text
unfolding failure
decide proc ([], bad) = raise (failure proc bad)
decide proc ((fingerprint ∷ more), bad) =
    if not (proc.returncode == 0) || bad then raise (failure proc bad) else ok fingerprint

-- `_verify_gpg_signature`, once the keys are imported: a fingerprint that was found.
unfoldable pub verify_gpg_signature : Gpg → Result Error Text
unfolding decide
verify_gpg_signature proc = decide proc (status_loop (status_lines proc.stdout) ([], false))

-- `_fetch_signature`, by the status and the body of the answer.
unfoldable pub fetch_signature : Result ℕ Text → Result Error (Option Text)
fetch_signature (ok body) = ok (some body)
fetch_signature (raise code) =
    if code == 403 || code == 404 then ok none else raise (http_error code)

verify_fetched : (Text → Result Error Gpg) → Option Text → Result Error (Option Text)
verify_fetched gpg none = ok none
verify_fetched gpg (some signature) = do
  proc ← gpg signature
  fingerprint ← verify_gpg_signature proc
  ok (some fingerprint)

-- `verify_latest_build`: the key that signed the build, or `none` where it goes on without. `gpg`
-- is none where it is not installed; it imports the keys, which may fail, and verifies.
unfoldable pub verify_latest_build :
    Bool → Option (Text → Result Error Gpg) → Result ℕ Text → Result Error (Option Text)
unfolding verify_fetched
verify_latest_build true gpg answer = ok none
verify_latest_build false none answer = ok none
verify_latest_build false (some gpg) answer = fetch_signature answer >>= verify_fetched gpg
