-- ===== src/Kms.antt =====
-- The mock KMS server with failpoints, csfle/kms_failpoint_server.py: `Handler.do_POST`, and the
-- two counters that all requests share.
pub mod Failpoints
pub mod Routes
pub mod Tests
use drivers_evergreen_tools.Common.{
  ℕ, ◌≡◌, Bool, true, false, ◌&&◌, List, [], ◌∷◌, Option, none, some, if◌then◌else◌,
}
use drivers_evergreen_tools.Common.Int.{ℤ, pos, negsuc, is_positive, pred}
use drivers_evergreen_tools.Common.Text.{Text, codes, text_eq}
use drivers_evergreen_tools.Mongodl.Pattern.{parts_of, fnmatch}

-- `remaining_http_fails` and `remaining_network_fails`
pub record Counters : Type 0 where
  pub http_fails : ℤ
  pub network_fails : ℤ

-- The body as JSON.
pub data Body : Type 0 where
  -- No Content-Length, or no JSON object.
  unreadable : Body
  without_count : Body
  with_count : ℤ → Body

pub record Request : Type 0 where
  -- The path of `urlsplit(self.path)`
  pub path : Text
  -- The header X-Amz-Target
  pub target : Option Text
  pub body : Body

pub data Answer : Type 0 where
  failpoint_set : Text → Answer
  failpoints_reset : Answer
  ciphertext_blob aws_plaintext access_token : Answer
  ciphertext plaintext : Answer
  value_plaintext value_ciphertext : Answer

pub data Reply : Type 0 where
  -- 200 with JSON
  send_json : Answer → Reply
  -- 404
  not_found : Reply
  -- 429
  too_many : Reply
  -- An exception, which closes the connection: the mocked one, or one by a bad body.
  mock_network_error bad_body : Reply

-- `path.match(pattern)` for a pattern that is one name: the last component.
unfoldable pub last_matches : List Text → Text → Bool
last_matches [] pattern = false
last_matches (part ∷ []) pattern = fnmatch part pattern
last_matches (part ∷ more ∷ parts) pattern = last_matches (more ∷ parts) pattern

-- `path.match("/set_failpoint/*")`, with `path.parts[-1]`
unfoldable pub failpoint_type : List Text → Option Text
failpoint_type (root ∷ name ∷ kind ∷ []) =
    if text_eq root (codes "/")
      && (text_eq name (codes "set_failpoint") && fnmatch kind (codes "*"))
    then some kind
    else none
failpoint_type _ = none

-- `path.match("/reset")`
unfoldable pub is_reset : List Text → Bool
is_reset (root ∷ name ∷ []) = text_eq root (codes "/") && text_eq name (codes "reset")
is_reset _ = false

-- `str(path) == "/"`
unfoldable pub is_root : List Text → Bool
is_root (root ∷ []) = text_eq root (codes "/")
is_root _ = false

with_body : Body → (ℤ → Counters) → Text → Counters → Reply × Counters
with_body unreadable set kind c = (bad_body, c)
with_body without_count set kind c = (bad_body, c)
with_body (with_count n) set kind c = (send_json (failpoint_set kind), set n)

unknown_kind : Body → Counters → Reply × Counters
unknown_kind unreadable c = (bad_body, c)
unknown_kind without_count c = (not_found, c)
unknown_kind (with_count n) c = (not_found, c)

unfoldable pub set_failpoint : Text → Body → Counters → Reply × Counters
unfolding with_body unknown_kind
set_failpoint kind body c =
    if text_eq kind (codes "network")
    then with_body body (λ n. record c { network_fails = n }) kind c
    else if text_eq kind (codes "http")
    then with_body body (λ n. record c { http_fails = n }) kind c
    else unknown_kind body c

-- `_http_fail` where a failpoint is left, and the answer where none is.
unfoldable pub may_fail : Answer → Counters → Reply × Counters
may_fail answer c =
    if is_positive c.http_fails
    then (too_many, record c { http_fails = pred c.http_fails })
    else (send_json answer, c)

unfoldable pub aws_operation : Text → Counters → Reply × Counters
unfolding may_fail
aws_operation op c =
    if text_eq op (codes "TrentService.Encrypt")
    then (send_json ciphertext_blob, c)
    else if text_eq op (codes "TrentService.Decrypt")
    then may_fail aws_plaintext c
    else (not_found, c)

unfoldable pub by_path : List Text → Counters → Reply × Counters
unfolding may_fail
by_path parts c =
    if last_matches parts (codes "*token")
    then may_fail access_token c
    else if last_matches parts (codes "*encrypt")
    then (send_json ciphertext, c)
    else if last_matches parts (codes "*decrypt")
    then may_fail plaintext c
    else if last_matches parts (codes "*unwrapkey")
    then may_fail value_plaintext c
    else if last_matches parts (codes "*wrapkey")
    then (send_json value_ciphertext, c)
    else (not_found, c)

by_target : Option Text → List Text → Counters → Reply × Counters
unfolding by_path aws_operation
by_target none parts c = by_path parts c
by_target (some op) parts c = if is_root parts then aws_operation op c else by_path parts c

-- Behind the requests that set the failpoints.
unfoldable pub serve_key : Request → Counters → Reply × Counters
unfolding by_target
serve_key request c =
    if is_positive c.network_fails
    then (mock_network_error, record c { network_fails = pred c.network_fails })
    else by_target request.target (parts_of request.path) c

by_kind : Option Text → Request → Counters → Reply × Counters
unfolding set_failpoint serve_key
by_kind (some kind) request c = set_failpoint kind request.body c
by_kind none request c =
    if is_reset (parts_of request.path)
    then (send_json failpoints_reset, record c { http_fails = pos 0; network_fails = pos 0 })
    else serve_key request c

unfoldable pub do_post : Request → Counters → Reply × Counters
unfolding by_kind
do_post request c = by_kind (failpoint_type (parts_of request.path)) request c

-- Requests one after another, with their replies.
unfoldable pub serve_all : List Request → Counters → List Reply × Counters
serve_all [] c = ([], c)
serve_all (request ∷ requests) c =
    let (reply, c₁) = do_post request c in
    let (replies, c₂) = serve_all requests c₁ in (reply ∷ replies, c₂)
