-- ===== src/Mongodl/Cache/Again.antt =====
-- What a download that succeeded leaves for the next one, under a fresh signature.
use drivers_evergreen_tools.Common.{
  ℕ, ◌≡◌, refl, sym, ap, ◌∙◌, true, ◌∷◌, ◌++◌, some, length, take, if◌then◌else◌, ok,
}
use drivers_evergreen_tools.Common.Text.{Text}
use drivers_evergreen_tools.Mongodl.Url.{strip_presigned_query, is_presigned}
use drivers_evergreen_tools.Mongodl.Url.Strip.{Without, strip_presigned_query_lem}
use drivers_evergreen_tools.Mongodl.Cache.{
  Cached, Row, Store, Headers, Response, Reply, response, header, headers_of_row, request_headers,
  cached_at, download_file,
}
use drivers_evergreen_tools.Mongodl.Cache.Download.{replied, download_file-Stored}

strip_signature :
    (front query : Text)
    → Without b'#' front
    → Without b'?' front
    → Without b'#' query
    → is_presigned query ≡ true
    → strip_presigned_query (front ++ b'?' ∷ query) ≡ front
strip_signature front query hf hq h p =
    strip_presigned_query_lem front query hf hq h
    ∙ ap (λ b. if b then front else front ++ b'?' ∷ query) p

module _ (serve : ℕ → Text → Headers → Reply) (sha256 : Text → Text) where
  conditional :
      (url : Text) (store : Store) (content : Text) (row : Row)
      → store.files (cached_at sha256 (strip_presigned_query url)) ≡ some content
      → store.rows (strip_presigned_query url) ≡ some row
      → replied serve sha256 url store ≡ serve store.requests url (headers_of_row (some row))
  unfolding request_headers
  conditional url store content row f r = rw (f, r) refl

  -- The download of the first URL got a whole body, which stands in the file of the URL without its
  -- query, and the request of the second one carries the validators of that body.
  abbrev pub IsReused : Text → Text → Text → Store → Store → Cached → Type 0
  IsReused front url₁ url₂ store after path =
      (resp : Response) × (n : ℕ) × (replied serve sha256 url₁ store ≡ response resp)
      × (resp.content_length ≡ some n)
      × (length (take n resp.body) ≡ n)
      × (path ≡ cached_at sha256 front)
      × (after.files path ≡ some (take n resp.body))
      × (replied serve sha256 url₂ after
          ≡ serve after.requests url₂ (record {
            if_none_match = header resp.got_etag;
            if_modified_since = header resp.got_modtime;
          }))

  -- Two presigned URLs differ in their signatures alone. Where a download of the first one says that
  -- the file has changed, the server sent a body of the announced length, and the file holds it; and
  -- the next request, of the second URL, is made with the validators that came with that body.
  pub download_file-again :
      (front first second : Text) (store after : Store) (path : Cached)
      → Without b'#' front
      → Without b'?' front
      → Without b'#' first
      → Without b'#' second
      → is_presigned first ≡ true
      → is_presigned second ≡ true
      → download_file serve sha256 (front ++ b'?' ∷ first) store
        ≡ (ok (record { is_changed = true; path = path }), after)
      → IsReused front (front ++ b'?' ∷ first) (front ++ b'?' ∷ second) store after path
  unfolding headers_of_row
  download_file-again front first second store after path hf hq h₁ h₂ p₁ p₂ h =
      let url₁ = front ++ b'?' ∷ first in
      let url₂ = front ++ b'?' ∷ second in
      let same₁ = strip_signature front first hf hq h₁ p₁ in
      let same₂ = strip_signature front second hf hq h₂ p₂ in
      let stored = download_file-Stored serve sha256 url₁ store after path h in
      let at : path ≡ cached_at sha256 front = stored.at ∙ ap (cached_at sha256) same₁ in
      let content = take stored.len stored.resp.body in
      let row : Row = record {
        etag = stored.resp.got_etag;
        last_modified = stored.resp.got_modtime;
      } in
      let there : after.files (cached_at sha256 (strip_presigned_query url₂)) ≡ some content =
        ap after.files (ap (cached_at sha256) same₂ ∙ sym at) ∙ stored.written in
      let its_row : after.rows (strip_presigned_query url₂) ≡ some row =
        ap after.rows (same₂ ∙ sym same₁) ∙ stored.row in
      (
        stored.resp,
        stored.len,
        stored.got,
        stored.announced,
        stored.complete,
        at,
        stored.written,
        conditional url₂ after content row there its_row,
      )
