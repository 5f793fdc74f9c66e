-- ===== src/Mongodl/Cache/Download.antt =====
-- What a download returns, and what it leaves in the cache.
use drivers_evergreen_tools.Common.{
  ℕ, suc, ◌≡◌, refl, Bool-cases, inl, inr, true, false, Option, none, some, length, take, arith,
  ◌==◌, ok, raise,
}
use drivers_evergreen_tools.Common.Exec.{pure, stop}
use drivers_evergreen_tools.Common.Text.{Text, text_eq_iff}
use drivers_evergreen_tools.Mongodl.Url.{strip_presigned_query}
use drivers_evergreen_tools.Mongodl.Cache.{
  Cached, cached_eq, Store, Headers, Response, Reply, response, http_error, url_error, Error,
  request_headers, write_cached, insert_row, store_body, with_length, not_modified, take_reply,
  cached_at, download_file,
}

pub cached_eq_refl : (p : Cached) → cached_eq p p ≡ true
unfolding cached_eq
cached_eq_refl p = ground (arith, text_eq_iff p.digest p.digest, text_eq_iff p.name p.name)

module _ (serve : ℕ → Text → Headers → Reply) (sha256 : Text → Text) where
  -- The request that a download makes.
  abbrev pub replied : Text → Store → Reply
  replied url store =
      let cache_url = strip_presigned_query url in
      serve store.requests url (request_headers store cache_url (cached_at sha256 cache_url))

  failed_length :
      (url : Text) (dest : Cached) (resp : Response) (length : Option ℕ) (store after : Store)
      (e : Error)
      → with_length serve sha256 url dest resp length store ≡ (raise e, after)
      → after.rows ≡ store.rows
  unfolding with_length store_body write_cached insert_row stop
  failed_length url dest resp none store after e h = ground arith
  failed_length url dest resp (some n) store after e h = ground arith

  failed_rows :
      (url : Text) (dest : Cached) (reply : Reply) (store after : Store) (e : Error)
      → take_reply serve sha256 url dest reply store ≡ (raise e, after)
      → after.rows ≡ store.rows
  unfolding take_reply not_modified stop pure
  failed_rows url dest url_error store after e h = ground arith
  failed_rows url dest (http_error code) store after e h = ground arith
  failed_rows url dest (response resp) store after e h =
      failed_length url dest resp resp.content_length store after e h

  -- What a download that changed the file got, and what it left.
  pub record Stored (url : Text) (store after : Store) (path : Cached) : Type 0 where
    pub resp : Response
    pub len : ℕ
    pub got : replied url store ≡ response resp
    pub announced : resp.content_length ≡ some len
    pub complete : length (take len resp.body) ≡ len
    pub at : path ≡ cached_at sha256 (strip_presigned_query url)
    pub written : after.files path ≡ some (take len resp.body)
    pub row :
        after.rows (strip_presigned_query url)
        ≡ some (record { etag = resp.got_etag; last_modified = resp.got_modtime })

  length-Stored :
      (url : Text) (store after : Store) (resp : Response) (length : Option ℕ) (path : Cached)
      → replied url store ≡ response resp
      → resp.content_length ≡ length
      → with_length serve sha256
          (strip_presigned_query url)
          (cached_at sha256 (strip_presigned_query url))
          resp
          length
          (record store { requests = suc store.requests })
        ≡ (ok (record { is_changed = true; path = path }), after)
      → Stored url store after path
  unfolding with_length store_body write_cached insert_row stop
  length-Stored url store after resp none path g a h = ground arith
  length-Stored url store after resp (some n) path g a h =
      elim (Bool-cases (length (take n resp.body) == n)) [
        | inl e ↦
            let dest = cached_at sha256 (strip_presigned_query url) in
            let k = rw e at h in
            let at : path ≡ dest = ground arith in
            let ended : after
                ≡ insert_row (strip_presigned_query url)
                    (record { etag = resp.got_etag; last_modified = resp.got_modtime })
                    (write_cached dest (take n resp.body)
                      (record store { requests = suc store.requests })) =
              ground arith in
            record {
              resp = resp;
              len = n;
              got = g;
              announced = a;
              complete = ground arith;
              at = at;
              written = rw (at, ended, cached_eq_refl dest) refl;
              row =
                  rw
                    (
                      ended,
                      (text_eq_iff (strip_presigned_query url) (strip_presigned_query url)).1 refl,
                    )
                    refl;
            }
        | inr e ↦ let k = rw e at h in ground arith
      ]

  reply-Stored :
      (url : Text) (store after : Store) (reply : Reply) (path : Cached)
      → replied url store ≡ reply
      → take_reply serve sha256
          (strip_presigned_query url)
          (cached_at sha256 (strip_presigned_query url))
          reply
          (record store { requests = suc store.requests })
        ≡ (ok (record { is_changed = true; path = path }), after)
      → Stored url store after path
  unfolding take_reply not_modified stop pure
  reply-Stored url store after url_error path g h = ground arith
  reply-Stored url store after (http_error code) path g h = ground arith
  reply-Stored url store after (response resp) path g h =
      length-Stored url store after resp resp.content_length path g refl h

  pub download_file-Stored :
      (url : Text) (store after : Store) (path : Cached)
      → download_file serve sha256 url store
        ≡ (ok (record { is_changed = true; path = path }), after)
      → Stored url store after path
  unfolding download_file
  download_file-Stored url store after path h =
      reply-Stored url store after (replied url store) path refl h

  -- A request that is answered with 304 keeps the cache as it was, and returns the file that it has.
  pub download_file-304 :
      (url : Text) (store : Store) (content : Text)
      → replied url store ≡ http_error 304
      → store.files (cached_at sha256 (strip_presigned_query url)) ≡ some content
      → download_file serve sha256 url store ≡ (
        ok (record { is_changed = false; path = cached_at sha256 (strip_presigned_query url) }),
        record store { requests = suc store.requests },
      )
  unfolding download_file take_reply not_modified pure
  download_file-304 url store content h f = rw (h, f) refl

  -- Whatever the server answers, a download that fails stores no row.
  pub download_file_rows :
      (url : Text) (store after : Store) (e : Error)
      → download_file serve sha256 url store ≡ (raise e, after)
      → after.rows ≡ store.rows
  unfolding download_file
  download_file_rows url store after e h =
      let cache_url = strip_presigned_query url in
      failed_rows cache_url (cached_at sha256 cache_url) (replied url store)
        (record store { requests = suc store.requests }) after e h
