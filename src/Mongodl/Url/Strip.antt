-- ===== src/Mongodl/Url/Strip.antt =====
-- The cache key of a presigned URL does not depend on its signature.
use drivers_evergreen_tools.Common.{
  ℕ, ◌≡◌, refl, false, Bool-cases, inl, inr, [], ◌∷◌, ◌++◌, append-nil, none, some, All, arith,
  ◌==◌, if◌then◌else◌,
}
use drivers_evergreen_tools.Common.Text.{Text}
use drivers_evergreen_tools.Mongodl.Url.{
  cut, or_empty, urlsplit, after_mark, geturl, is_presigned, strip_presigned_query,
}

abbrev pub Without : ℕ → Text → Type 0
Without mark s = All (λ (c : ℕ). (c == mark) ≡ false) s

cut-mark :
    (mark : ℕ) (s rest : Text) → Without mark s → cut mark (s ++ mark ∷ rest) ≡ (s, some rest)
unfolding cut
cut-mark mark [] rest h = ground arith
cut-mark mark (c ∷ s) rest h = ground (arith, cut-mark mark s rest h.1)

cut-none : (mark : ℕ) (s : Text) → Without mark s → cut mark s ≡ (s, none)
unfolding cut
cut-none mark [] h = refl
cut-none mark (c ∷ s) h = ground (arith, cut-none mark s h.1)

Without-append : (mark : ℕ) (s t : Text) → Without mark s → Without mark t → Without mark (s ++ t)
Without-append mark [] t hs ht = ht
Without-append mark (c ∷ s) t hs ht = (hs.0, Without-append mark s t hs.1 ht)

urlsplit-query :
    (front query : Text)
    → Without b'#' front
    → Without b'?' front
    → Without b'#' query
    → urlsplit (front ++ b'?' ∷ query) ≡ record { front = front; query = query; fragment = [] }
unfolding urlsplit or_empty
urlsplit-query front query hf hq h =
    rw
      (
        cut-none b'#' (front ++ b'?' ∷ query)
            (Without-append b'#' front (b'?' ∷ query) hf (refl, h)),
        cut-mark b'?' front query hq,
      )
      refl

-- A URL with a query and no fragment keeps its query, unless the query is an AWS signature: then it
-- is the URL without the query, whatever the signature.
pub strip_presigned_query_lem :
    (front query : Text)
    → Without b'#' front
    → Without b'?' front
    → Without b'#' query
    → strip_presigned_query (front ++ b'?' ∷ query)
      ≡ (if is_presigned query then front else front ++ b'?' ∷ query)
unfolding strip_presigned_query geturl after_mark
strip_presigned_query_lem front query hf hq h = elim (Bool-cases (is_presigned query)) [
  | inl e ↦ rw (urlsplit-query front query hf hq h, e, append-nil front) refl
  | inr e ↦ rw (urlsplit-query front query hf hq h, e) refl
]
