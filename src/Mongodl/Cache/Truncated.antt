-- ===== src/Mongodl/Cache/Truncated.antt =====
-- A truncated download stays in the cache beside validators that it does not belong to.
use drivers_evergreen_tools.Common.{
  ℕ, suc, ◌<◌, ◌≡◌, refl, false, none, some, length, take, length-take_whole, arith, ◌==◌, ok,
  raise,
}
use drivers_evergreen_tools.Common.Exec.{pure}
use drivers_evergreen_tools.Common.Text.{Text}
use drivers_evergreen_tools.Mongodl.Url.{strip_presigned_query}
use drivers_evergreen_tools.Mongodl.Cache.{
  Row, Store, Headers, no_headers, Response, Reply, response, http_error, size_mismatch,
  headers_of_row, request_headers, write_cached, store_body, with_length, not_modified, take_reply,
  cached_at, download_file,
}
use drivers_evergreen_tools.Mongodl.Cache.Download.{cached_eq_refl, download_file-304}

module _ (serve : ℕ → Text → Headers → Reply) (sha256 : Text → Text) where
  -- The cached file is missing and its row is not. The download of it is cut short, and fails; the
  -- next try sends the validators of the row. Where the server says that they still hold, it
  -- returns the truncated file as a good one.
  pub download_file_truncated :
      (url : Text) (store : Store) (row : Row) (resp : Response) (n : ℕ)
      → store.files (cached_at sha256 (strip_presigned_query url)) ≡ none
      → store.rows (strip_presigned_query url) ≡ some row
      → serve store.requests url no_headers ≡ response resp
      → resp.content_length ≡ some n
      → length resp.body < n
      → serve (suc store.requests) url (headers_of_row (some row)) ≡ http_error 304
      → (mid : Store) × (after : Store) × (download_file serve sha256 url store
          ≡ (raise (size_mismatch (length (take n resp.body)) n), mid))
        × (download_file serve sha256 url mid ≡ (
          ok (record { is_changed = false; path = cached_at sha256 (strip_presigned_query url) }),
          after,
        ))
        × (after.files (cached_at sha256 (strip_presigned_query url)) ≡ some (take n resp.body))
  unfolding download_file take_reply with_length store_body not_modified request_headers
      write_cached pure
  download_file_truncated url store row resp n hf hr h₁ hn hl h₂ =
      let dest = cached_at sha256 (strip_presigned_query url) in
      let short : (length (take n resp.body) == n) ≡ false =
        ground (arith, length-take_whole n resp.body) in
      let mid =
        write_cached dest (take n resp.body) (record store { requests = suc store.requests }) in
      let there : mid.files dest ≡ some (take n resp.body) = rw (cached_eq_refl dest) refl in
      (
        mid,
        record mid { requests = suc mid.requests },
        rw (hf, h₁, hn, short) refl,
        download_file-304 serve sha256 url mid (take n resp.body) (rw (cached_eq_refl dest, hr) h₂)
            there,
        there,
      )
