-- ===== src/Mongodl/Runs.antt =====
-- Runs of the downloads of mongodl.py at concrete inputs.
use drivers_evergreen_tools.Common.{
  ℕ, suc, zero, ◌≡◌, refl, true, false, [], ◌∷◌, ◌++◌, none, some, take, length, arith, ok, raise,
  if◌then◌else◌, ◌==◌,
}
use drivers_evergreen_tools.Common.Exec.{Exec}
use drivers_evergreen_tools.Common.Text.{Text, codes}
use drivers_evergreen_tools.Mongodl.Retry.{Failure, transient, run, loop, retry, new_retrier, delay}
use drivers_evergreen_tools.Mongodl.Retry.Outcome.{Outcome, run-Outcome}
use drivers_evergreen_tools.Mongodl.Url.{
  strip_presigned_query, is_presigned, urlsplit, geturl, cut, contains, is_prefix,
}
use drivers_evergreen_tools.Mongodl.Cache.{
  Row, Cached, Store, Headers, Response, Reply, response, http_error, size_mismatch, cached_at,
  request_headers, write_cached, insert_row, download_file,
}
use drivers_evergreen_tools.Mongodl.Cache.Again.{IsReused, download_file-again}
use drivers_evergreen_tools.Mongodl.Cache.Truncated.{download_file_truncated}

-- The world counts the attempts; the third one succeeds.
abbrev flaky : Exec ℕ Failure ℕ
flaky n = ((if n == 2 then ok n else raise (transient (codes "timeout"))), suc n)

flaky-run : run flaky 5 0 ≡ some (ok 2, 3, 1 ∷ 2 ∷ [])
unfolding run loop retry new_retrier delay
flaky-run = refl

run-Outcome_example : Outcome flaky 5 0 [] 0 (run flaky 5 0)
run-Outcome_example = run-Outcome flaky 5 0

abbrev url : Text
url = codes "https://a.b/c/full.json"

stripped :
    strip_presigned_query (codes "https://a.b/c.tgz?X-Amz-Date=1#f") ≡ codes "https://a.b/c.tgz#f"
unfolding strip_presigned_query is_presigned urlsplit geturl cut contains is_prefix
stripped = refl

abbrev row : Row
row = record { etag = some (codes "e1"); last_modified = none }

abbrev short_reply : ℕ → Response
short_reply n = record {
  got_etag = some (codes "e1");
  got_modtime = none;
  content_length = some n;
  body = codes "{}";
}

-- The first reply is a response, the second one says "not modified".
abbrev serve : ℕ → ℕ → Text → Headers → Reply
serve n zero u headers = response (short_reply n)
serve n (suc k) u headers = http_error 304

abbrev digest : Text → Text
digest u = take 8 u

abbrev at : Cached
at = cached_at digest (strip_presigned_query url)

abbrev no_file : Store
no_file = record { rows = λ u. some row; files = λ p. none; requests = 0 }

abbrev one_file : Store
one_file = record { rows = λ u. some row; files = λ p. some (codes "{}"); requests = 1 }

download_file_truncated_example :
    (mid : Store) × (after : Store) × (download_file (serve 3) digest url no_file
      ≡ (raise (size_mismatch (length (take 3 (codes "{}"))) 3), mid))
    × (download_file (serve 3) digest url mid
        ≡ (ok (record { is_changed = false; path = at }), after))
    × (after.files at ≡ some (take 3 (codes "{}")))
download_file_truncated_example =
    download_file_truncated (serve 3) digest url no_file row (short_reply 3) 3 refl refl refl refl
      (omega arith) refl

abbrev first_query : Text
first_query = codes "X-Amz-Date=1"

abbrev second_query : Text
second_query = codes "X-Amz-Date=2"

abbrev fetched : Store
fetched = (download_file (serve 2) digest (url ++ b'?' ∷ first_query) no_file).1

fetched-download_file :
    download_file (serve 2) digest (url ++ b'?' ∷ first_query) no_file
    ≡ (ok (record { is_changed = true; path = cached_at digest url }), fetched)
unfolding download_file strip_presigned_query is_presigned urlsplit geturl cut contains is_prefix
    request_headers write_cached insert_row cached_at
fetched-download_file = refl

first_query-is_presigned : is_presigned first_query ≡ true
unfolding is_presigned contains is_prefix
first_query-is_presigned = refl

second_query-is_presigned : is_presigned second_query ≡ true
unfolding is_presigned contains is_prefix
second_query-is_presigned = refl

download_file-again_example :
    IsReused
      (serve 2)
      digest
      url
      (url ++ b'?' ∷ first_query)
      (url ++ b'?' ∷ second_query)
      no_file
      fetched
      (cached_at digest url)
download_file-again_example =
    download_file-again (serve 2) digest url first_query second_query no_file fetched
      (cached_at digest url) (ground arith) (ground arith) (ground arith) (ground arith)
      first_query-is_presigned second_query-is_presigned fetched-download_file
