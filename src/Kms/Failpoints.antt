-- ===== src/Kms/Failpoints.antt =====
-- A failpoint of count `n` fails exactly the next `n` requests that it is for.
use drivers_evergreen_tools.Common.{
  ℕ, zero, suc, ◌+◌, ◌-◌, ◌≤◌, min, ◌≡◌, refl, ap, ◌∙◌, Bool, true, false, Bool-cases, inl, inr,
  ◌&&◌, ◌||◌, not, List, [], ◌∷◌, Option, none, some, All, length, arith, if◌then◌else◌,
}
use drivers_evergreen_tools.Common.Int.{ℤ, pos, is_positive}
use drivers_evergreen_tools.Common.Text.{Text, codes, text_eq, text_eq_iff}
use drivers_evergreen_tools.Mongodl.Pattern.{parts_of}
use drivers_evergreen_tools.Kms.{
  Counters, Request, Answer, Reply, send_json, not_found, too_many, mock_network_error, bad_body,
  ciphertext_blob, aws_plaintext, access_token, ciphertext, plaintext, value_plaintext,
  value_ciphertext, last_matches, failpoint_type, is_reset, is_root, may_fail, aws_operation,
  by_path, by_target, serve_key, by_kind, do_post, serve_all,
}

-- A request that is not about the failpoints.
pub record IsKeyRequest (request : Request) : Type 0 where
  pub no_failpoint : failpoint_type (parts_of request.path) ≡ none
  pub no_reset : is_reset (parts_of request.path) ≡ false

-- The requests that an HTTP failpoint is for, by what they ask: tokens and decryption.
path_needs_key : List Text → Bool
path_needs_key parts =
    last_matches parts (codes "*token")
    || (not (last_matches parts (codes "*encrypt"))
        && (last_matches parts (codes "*decrypt") || last_matches parts (codes "*unwrapkey")))

needs_key : Option Text → List Text → Bool
unfolding path_needs_key
needs_key none parts = path_needs_key parts
needs_key (some op) parts =
    if is_root parts then text_eq op (codes "TrentService.Decrypt") else path_needs_key parts

pub is_failable : Request → Bool
unfolding needs_key
is_failable request = needs_key request.target (parts_of request.path)

pub failable : List Request → ℕ
failable [] = 0
failable (request ∷ requests) = (if is_failable request then 1 else 0) + failable requests

is_too_many : Reply → Bool
is_too_many too_many = true
is_too_many (send_json answer) = false
is_too_many not_found = false
is_too_many mock_network_error = false
is_too_many bad_body = false

-- The number of replies with status 429.
pub too_manys : List Reply → ℕ
unfolding is_too_many
too_manys [] = 0
too_manys (reply ∷ replies) = (if is_too_many reply then 1 else 0) + too_manys replies

abbrev pub dropped : List Request → List Reply
dropped [] = []
dropped (request ∷ requests) = mock_network_error ∷ dropped requests

do_post-key :
    (request : Request) (c : Counters)
    → IsKeyRequest request
    → do_post request c ≡ serve_key request c
unfolding do_post by_kind
do_post-key request c h = rw (h.no_failpoint, h.no_reset) refl

-- A network failpoint of count `n` drops the next requests, up to `n` of them and whatever they ask,
-- and leaves the HTTP failpoint as it was.
pub serve_all-network :
    (requests : List Request) (n : ℕ) (http : ℤ)
    → All IsKeyRequest requests
    → length requests ≤ n
    → serve_all requests (record { http_fails = http; network_fails = pos n })
      ≡ (dropped requests, record { http_fails = http; network_fails = pos (n - length requests) })
unfolding serve_all serve_key
serve_all-network [] n http h l = ground arith
serve_all-network (request ∷ requests) zero http h l = absurd (omega arith)
serve_all-network (request ∷ requests) (suc n) http h l =
    rw (do_post-key request (record { http_fails = http; network_fails = pos (suc n) }) h.0) (
      rw (serve_all-network requests n http h.1 (omega arith)) (
        ap
          (λ k. (
            mock_network_error ∷ dropped requests,
            record { http_fails = http; network_fails = pos k },
          ))
          (omega arith)))

-- One reply where the HTTP failpoint has `n` left, for `wants` requests of its kind.
record Spends (n wants : ℕ) (network : ℤ) (o : Reply × Counters) : Type 0 where
  fails : (if is_too_many o.0 then 1 else 0) ≡ min n wants
  left : o.1 ≡ record { http_fails = pos (n - wants); network_fails = network }

abbrev one_if : Bool → ℕ
one_if b = if b then 1 else 0

abbrev at : ℕ → ℤ → Counters
at n network = record { http_fails = pos n; network_fails = network }

may_fail-Spends :
    (answer : Answer) (n : ℕ) (network : ℤ) → Spends n 1 network (may_fail answer (at n network))
unfolding may_fail is_too_many
may_fail-Spends answer zero network = record { fails = omega arith; left = ground arith }
may_fail-Spends answer (suc n) network = record { fails = omega arith; left = ground arith }

other-Spends :
    (reply : Reply) (n : ℕ) (network : ℤ)
    → is_too_many reply ≡ false
    → Spends n 0 network (reply, at n network)
other-Spends reply n network h = record { fails = rw h (omega arith); left = ground arith }

choose-Spends :
    {n wants : ℕ} {network : ℤ} {x y : Reply × Counters} (b : Bool)
    → (b ≡ true → Spends n wants network x)
    → (b ≡ false → Spends n wants network y)
    → Spends n wants network (if b then x else y)
choose-Spends true f g = f refl
choose-Spends false f g = g refl

encrypt-Spends :
    (op : Text) (n : ℕ) (network : ℤ)
    → op ≡ codes "TrentService.Encrypt"
    → Spends n
        (one_if (text_eq op (codes "TrentService.Decrypt")))
        network
        (send_json ciphertext_blob, at n network)
unfolding text_eq is_too_many
encrypt-Spends op n network e = rw e (other-Spends (send_json ciphertext_blob) n network refl)

aws-Spends :
    (op : Text) (n : ℕ) (network : ℤ)
    → Spends n
        (one_if (text_eq op (codes "TrentService.Decrypt")))
        network
        (aws_operation op (at n network))
unfolding aws_operation is_too_many
aws-Spends op n network =
    choose-Spends (text_eq op (codes "TrentService.Encrypt"))
      (λ e. encrypt-Spends op n network ((text_eq_iff op (codes "TrentService.Encrypt")).0 e))
      λ _.
        choose-Spends (text_eq op (codes "TrentService.Decrypt"))
          (λ e. rw e (may_fail-Spends aws_plaintext n network))
          λ e. rw e (other-Spends not_found n network refl)

by_path-Spends :
    (parts : List Text) (n : ℕ) (network : ℤ)
    → Spends n (one_if (path_needs_key parts)) network (by_path parts (at n network))
unfolding by_path path_needs_key is_too_many
by_path-Spends parts n network =
    choose-Spends (last_matches parts (codes "*token"))
      (λ e. rw e (may_fail-Spends access_token n network))
      λ e₁.
        choose-Spends (last_matches parts (codes "*encrypt"))
          (λ e. rw (e₁, e) (other-Spends (send_json ciphertext) n network refl))
          λ e₂.
            choose-Spends (last_matches parts (codes "*decrypt"))
              (λ e. rw (e₁, e₂, e) (may_fail-Spends plaintext n network))
              λ e₃.
                choose-Spends (last_matches parts (codes "*unwrapkey"))
                  (λ e. rw (e₁, e₂, e₃, e) (may_fail-Spends value_plaintext n network))
                  λ e₄.
                    choose-Spends (last_matches parts (codes "*wrapkey"))
                      (λ _.
                        rw (e₁, e₂, e₃, e₄)
                          (other-Spends (send_json value_ciphertext) n network refl))
                      λ _. rw (e₁, e₂, e₃, e₄) (other-Spends not_found n network refl)

target-Spends :
    (target : Option Text) (parts : List Text) (n : ℕ) (network : ℤ)
    → Spends n (one_if (needs_key target parts)) network (by_target target parts (at n network))
unfolding by_target needs_key
target-Spends none parts n network = by_path-Spends parts n network
target-Spends (some op) parts n network = elim (Bool-cases (is_root parts)) [
  | inl e ↦ rw e (aws-Spends op n network)
  | inr e ↦ rw e (by_path-Spends parts n network)
]

key-Spends :
    (request : Request) (n : ℕ) (network : ℤ)
    → is_positive network ≡ false
    → IsKeyRequest request
    → Spends n (one_if (is_failable request)) network (do_post request (at n network))
unfolding serve_key is_failable
key-Spends request n network h k =
    rw (do_post-key request (at n network) k, h)
      (target-Spends request.target (parts_of request.path) n network)

-- An HTTP failpoint of count `n` answers 429 to the next `n` token and decryption requests and to
-- no other request, where no network failpoint is left.
pub serve_all-http :
    (requests : List Request) (n : ℕ) (network : ℤ)
    → is_positive network ≡ false
    → All IsKeyRequest requests
    → (too_manys (serve_all requests (record { http_fails = pos n; network_fails = network })).0
        ≡ min n (failable requests))
      × ((serve_all requests (record { http_fails = pos n; network_fails = network })).1
          ≡ record { http_fails = pos (n - failable requests); network_fails = network })
unfolding serve_all too_manys failable
serve_all-http [] n network h k = (omega arith, ground arith)
serve_all-http (request ∷ requests) n network h k =
    let s = key-Spends request n network h k.0 in
    let (fails, left) = serve_all-http requests (n - one_if (is_failable request)) network h k.1 in
    rw s.left (omega (arith, s.fails, fails), left ∙ ap (λ m. at m network) (omega arith))
