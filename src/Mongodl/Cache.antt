-- ===== src/Mongodl/Cache.antt =====
-- `Cache.download_file` of mongodl.py. The server, and the digest of a URL, are parameters.
pub mod Download
pub mod Truncated
pub mod Again
use drivers_evergreen_tools.Common.{
  ℕ, suc, ◌≡◌, Bool, true, false, ◌&&◌, not, List, [], ◌∷◌, ◌++◌, Option, none, some, length, take,
  leb, ◌==◌, if◌then◌else◌, Result, ok, raise,
}
use drivers_evergreen_tools.Common.Exec.{Exec, pure, stop, ◌>>=◌, ◌>>◌}
use drivers_evergreen_tools.Common.Text.{Text, codes, text_eq}
use drivers_evergreen_tools.Mongodl.Url.{strip_presigned_query, file_name}

-- A row of `mdl_http_downloads`.
pub record Row : Type 0 where
  pub etag : Option Text
  pub last_modified : Option Text

-- `<cache>/files/<digest>/<file name>`
pub record Cached : Type 0 where
  pub digest : Text
  pub name : Text

unfoldable pub cached_eq : Cached → Cached → Bool
cached_eq p q = text_eq p.digest q.digest && text_eq p.name q.name

-- The table, keyed by the URL; the files; and how many requests were made.
pub record Store : Type 0 where
  pub rows : Text → Option Row
  pub files : Cached → Option Text
  pub requests : ℕ

-- The two headers that make a request conditional.
pub record Headers : Type 0 where
  pub if_none_match : Option Text
  pub if_modified_since : Option Text

abbrev pub no_headers : Headers
no_headers = record { if_none_match = none; if_modified_since = none }

pub record Response : Type 0 where
  pub got_etag : Option Text
  pub got_modtime : Option Text
  pub content_length : Option ℕ
  pub body : Text

pub data Reply : Type 0 where
  response : Response → Reply
  http_error : ℕ → Reply
  url_error : Reply

pub data Error : Type 0 where
  failed_to_download : Text → Error
  missing_file : Cached → Error
  size_mismatch : ℕ → ℕ → Error
  -- URLError, and TypeError for a response without Content-Length
  unreachable no_length : Error

pub record DownloadResult : Type 0 where
  pub is_changed : Bool
  pub path : Cached

-- An empty text is false.
unfoldable pub header : Option Text → Option Text
header none = none
header (some []) = none
header (some (c ∷ s)) = some (c ∷ s)

unfoldable pub headers_of_row : Option Row → Headers
unfolding header
headers_of_row none = no_headers
headers_of_row (some row) = record {
  if_none_match = header row.etag;
  if_modified_since = header row.last_modified;
}

abbrev pub exists : Option Text → Bool
exists none = false
exists (some content) = true

-- No condition is sent where the cached file is missing.
unfoldable pub request_headers : Store → Text → Cached → Headers
unfolding headers_of_row
request_headers store cache_url dest =
    if not (exists (store.files dest)) then no_headers else headers_of_row (store.rows cache_url)

unfoldable pub write_cached : Cached → Text → Store → Store
write_cached dest content store = record store {
  files = λ p. if cached_eq dest p then some content else store.files p;
}

unfoldable pub insert_row : Text → Row → Store → Store
insert_row url row store = record store {
  rows = λ u. if text_eq url u then some row else store.rows u;
}

unfoldable pub cached_at : (Text → Text) → Text → Cached
cached_at sha256 cache_url = record {
  digest = take 4 (sha256 cache_url);
  name = file_name cache_url;
}

module _ (serve : ℕ → Text → Headers → Reply) (sha256 : Text → Text) where
  -- The file is written, its size is checked, and then the row is stored.
  store_body : Text → Cached → Response → ℕ → Exec Store Error DownloadResult
  store_body cache_url dest resp got_len store =
      let content = take got_len resp.body in
      let written = write_cached dest content store in
      if length content == got_len
      then (
        ok (record { is_changed = true; path = dest }),
        insert_row cache_url (record { etag = resp.got_etag; last_modified = resp.got_modtime })
            written,
      )
      else (raise (size_mismatch (length content) got_len), written)

  with_length : Text → Cached → Response → Option ℕ → Exec Store Error DownloadResult
  with_length cache_url dest resp none = stop no_length
  with_length cache_url dest resp (some got_len) = store_body cache_url dest resp got_len

  not_modified : Cached → Bool → Exec Store Error DownloadResult
  not_modified dest true = pure (record { is_changed = false; path = dest })
  not_modified dest false = stop (missing_file dest)

  take_reply : Text → Cached → Reply → Exec Store Error DownloadResult
  unfolding store_body with_length not_modified
  take_reply cache_url dest url_error = stop unreachable
  take_reply cache_url dest (http_error code) =
      if not (code == 304) then stop (failed_to_download cache_url) else λ store.
      not_modified dest (exists (store.files dest)) store
  take_reply cache_url dest (response resp) = with_length cache_url dest resp resp.content_length

  unfoldable pub download_file : Text → Exec Store Error DownloadResult
  unfolding take_reply
  download_file url store =
      let cache_url = strip_presigned_query url in
      let dest = cached_at sha256 cache_url in
      let headers = request_headers store cache_url dest in
      take_reply cache_url dest (serve store.requests url headers)
        (record store { requests = suc store.requests })
