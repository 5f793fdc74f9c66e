-- ===== src/Kms/Tests.antt =====
-- Runs of the KMS server at concrete requests.
use drivers_evergreen_tools.Common.{ℕ, ◌-◌, min, ◌≡◌, refl, List, [], ◌∷◌, none, All}
use drivers_evergreen_tools.Common.Int.{pos}
use drivers_evergreen_tools.Common.Text.{Text, codes, text_eq}
use drivers_evergreen_tools.Mongodl.Pattern.{
  parts_of, anchor, keep_parts, split_at, is_void, fnmatch, tokens, tokens_match,
}
use drivers_evergreen_tools.Kms.{
  Counters, Request, with_count, without_count, send_json, failpoint_set, failpoint_type, is_reset,
  serve_all, do_post, set_failpoint,
}
use drivers_evergreen_tools.Kms.Failpoints.{IsKeyRequest, too_manys, failable, serve_all-http}

abbrev unwrap : Request
unwrap = record { path = codes "/keys/k/v/unwrapkey"; target = none; body = without_count }

abbrev wrap : Request
wrap = record { path = codes "/keys/k/v/wrapkey"; target = none; body = without_count }

abbrev requests : List Request
requests = unwrap ∷ wrap ∷ []

requests_IsKeyRequest : All IsKeyRequest requests
unfolding parts_of anchor keep_parts split_at is_void text_eq failpoint_type is_reset
requests_IsKeyRequest = (
  record { no_failpoint = refl; no_reset = refl },
  (record { no_failpoint = refl; no_reset = refl }, tt),
)

abbrev counters : ℕ → ℕ → Counters
counters http network = record { http_fails = pos http; network_fails = pos network }

set_network :
    do_post
      (record { path = codes "/set_failpoint/network"; target = none; body = with_count (pos 2) })
      (counters 1 0)
    ≡ (send_json (failpoint_set (codes "network")), counters 1 2)
unfolding do_post set_failpoint parts_of anchor keep_parts split_at is_void text_eq failpoint_type
    fnmatch tokens tokens_match
set_network = refl

serve_all-http_example :
    (too_manys (serve_all requests (counters 2 0)).0 ≡ min 2 (failable requests))
    × ((serve_all requests (counters 2 0)).1
        ≡ record { http_fails = pos (2 - failable requests); network_fails = pos 0 })
serve_all-http_example = serve_all-http requests 2 (pos 0) refl requests_IsKeyRequest

abbrev key : List Text
key = codes "/" ∷ codes "keys" ∷ codes "k" ∷ codes "v" ∷ []
