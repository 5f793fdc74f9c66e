-- ===== src/Mongodl/Component/Checked.antt =====
-- Nothing is expanded unless the download passed its checks.
use drivers_evergreen_tools.Common.{
  ◌≡◌, ◌⊎◌, refl, ◌∙◌, inl, inr, true, Bool-cases, Option, none, some, arith, Result, ok, raise,
}
use drivers_evergreen_tools.Common.Exec.{Exec, pure, stop, ◌>>=◌, continue}
use drivers_evergreen_tools.Common.Text.{Text, text_eq_iff}
use drivers_evergreen_tools.Mongodl.Cache.{Cached, Store, DownloadResult, download_file}
use drivers_evergreen_tools.Mongodl.Cache as Cache
use drivers_evergreen_tools.Mongodl.Retry.{Failure}
use drivers_evergreen_tools.Mongodl.Extract.{Options, ExpandResult}
use drivers_evergreen_tools.Mongodl.Builds.{SignatureUrl}
use drivers_evergreen_tools.Mongodl.Component.{
  World, Verdict, verified, no_gpg, rejected, Outside, downloaded, download, check_shasum256, check,
  judged, verify_signature, read_cached, expand, attempt,
}

module _ (outside : Outside) where
  -- The signature of the content was verified, or a host that cannot verify it is excepted.
  pub data Accepted (content : Text) (sig : SignatureUrl) : Type 0 where
    by_key : outside.verify content sig ≡ verified → Accepted content sig
    by_host :
        (t : Text)
        → outside.verify content sig ≡ no_gpg t
        → outside.amazon2023 ≡ true
        → Accepted content sig

  -- What is asked of the content before it is expanded.
  pub PassedHash : Option Text → Text → Type 0
  PassedHash none content = Unit
  PassedHash (some shasum) content = shasum ≡ outside.sha256 content

  pub PassedSignature : Option SignatureUrl → Text → Type 0
  PassedSignature none content = Unit
  PassedSignature (some sig) content = Accepted content sig

  check_passes :
      (sha256 : Option Text) (content : Text) (w w' : World) (u : Unit {0})
      → check outside sha256 content w ≡ (ok u, w')
      → PassedHash sha256 content
  unfolding check PassedHash pure stop
  check_passes none content w w' u h = tt
  check_passes (some shasum) content w w' u h =
      ground (arith, text_eq_iff shasum (outside.sha256 content))

  judged_passes :
      (content : Text) (sig : SignatureUrl) (v : Verdict) (w w' : World) (u : Unit {0})
      → outside.verify content sig ≡ v
      → judged outside v w ≡ (ok u, w')
      → Accepted content sig
  unfolding judged pure stop
  judged_passes content sig verified w w' u e h = by_key e
  judged_passes content sig (rejected t) w w' u e h = ground arith
  judged_passes content sig (no_gpg t) w w' u e h = by_host t e (ground arith)

  verify_passes :
      (sig : Option SignatureUrl) (content : Text) (w w' : World) (u : Unit {0})
      → verify_signature outside sig content w ≡ (ok u, w')
      → PassedSignature sig content
  unfolding verify_signature PassedSignature pure
  verify_passes none content w w' u h = tt
  verify_passes (some sig) content w w' u h =
      judged_passes content sig (outside.verify content sig) w w' u refl h

  -- The step puts nothing in its place.
  abbrev Still : {A : Type 0} → Exec World Failure A → Type 0
  Still {A = A} m = (w : World) → (m w).1.placed ≡ w.placed

  download-Still : (url : Text) → Still (download outside url)
  unfolding download downloaded
  download-Still url w =
      let p = download_file outside.serve outside.sha256 url w.store in by p.0 p.1
    where
      by :
          (r : Result Cache.Error DownloadResult) (store : Store)
          → (downloaded outside (r, store) w.placed).1.placed ≡ w.placed
      by (ok result) store = refl
      by (raise e) store = refl

  check-Still : (sha256 : Option Text) (content : Text) → Still (check outside sha256 content)
  unfolding check pure stop
  check-Still none content w = refl
  check-Still (some shasum) content w = elim (Bool-cases (check_shasum256 outside content shasum)) [
    | inl e ↦ rw e refl
    | inr e ↦ rw e refl
  ]

  judged-Still : (v : Verdict) → Still (judged outside v)
  unfolding judged pure stop
  judged-Still verified w = refl
  judged-Still (rejected t) w = refl
  judged-Still (no_gpg t) w = elim (Bool-cases outside.amazon2023) [
    | inl e ↦ rw e refl
    | inr e ↦ rw e refl
  ]

  verify-Still :
      (sig : Option SignatureUrl) (content : Text) → Still (verify_signature outside sig content)
  unfolding verify_signature pure
  verify-Still none content w = refl
  verify-Still (some sig) content w = judged-Still (outside.verify content sig) w

  -- The attempt stopped with an exception before anything was placed.
  pub Untouched : World → Result Failure ExpandResult × World → Type 0
  Untouched w (ok result, w') = ⊥
  Untouched w (raise e, w') = w'.placed ≡ w.placed

  -- The attempt expanded a content that had passed, with nothing placed before, and ended as the
  -- expansion did.
  pub record Expanded (options : Options) (sha256 : Option Text) (sig : Option SignatureUrl)
      (w : World) (end : Result Failure ExpandResult × World) : Type 0 where
    pub content : Text
    pub cached : Cached
    pub before : World
    pub same : before.placed ≡ w.placed
    pub hash : PassedHash sha256 content
    pub signature : PassedSignature sig content
    pub ends : end ≡ expand outside options cached content before

  abbrev Good :
      Options
      → Option Text
      → Option SignatureUrl
      → World
      → Result Failure ExpandResult × World
      → Type 0
  Good options sha256 sig w end = Untouched w end ⊎ Expanded options sha256 sig w end

  signed-Good :
      (options : Options) (sha256 : Option Text) (sig : Option SignatureUrl) (w : World)
      (cached : Cached) (content : Text) (w₂ : World)
      → w₂.placed ≡ w.placed
      → PassedHash sha256 content
      → Good options sha256 sig w
          ((verify_signature outside sig content >>= λ _. expand outside options cached content) w₂)
  unfolding ◌>>=◌ continue Untouched
  signed-Good options sha256 sig w cached content w₂ same passed =
      let v = verify_signature outside sig content w₂ in
      by v.0 v.1 refl (verify-Still sig content w₂ ∙ same)
    where
      by :
          (r : Result Failure (Unit {0})) (w₃ : World)
          → verify_signature outside sig content w₂ ≡ (r, w₃)
          → w₃.placed ≡ w.placed
          → Good options sha256 sig w (continue r (λ _. expand outside options cached content) w₃)
      by (ok u) w₃ e still = inr (record {
        content = content;
        cached = cached;
        before = w₃;
        same = still;
        hash = passed;
        signature = verify_passes sig content w₂ w₃ u e;
        ends = refl;
      })
      by (raise x) w₃ e still = inl still

  checked-Good :
      (options : Options) (sha256 : Option Text) (sig : Option SignatureUrl) (w : World)
      (cached : Cached) (content : Text) (w₁ : World)
      → w₁.placed ≡ w.placed
      → Good options sha256 sig w (
          (check outside sha256 content >>= λ _.
          verify_signature outside sig content >>= λ _. expand outside options cached content)
            w₁)
  unfolding ◌>>=◌ continue Untouched
  checked-Good options sha256 sig w cached content w₁ same =
      let v = check outside sha256 content w₁ in
      by v.0 v.1 refl (check-Still sha256 content w₁ ∙ same)
    where
      by :
          (r : Result Failure (Unit {0})) (w₂ : World)
          → check outside sha256 content w₁ ≡ (r, w₂)
          → w₂.placed ≡ w.placed
          → Good options sha256 sig w (
              continue r
                (λ _. verify_signature outside sig content >>= λ _.
                  expand outside options cached content)
                w₂)
      by (ok u) w₂ e still =
          signed-Good options sha256 sig w cached content w₂ still
            (check_passes sha256 content w₁ w₂ u e)
      by (raise x) w₂ e still = inl still

  -- However an attempt ends, it has placed nothing and ends in an exception, or it has expanded a
  -- content that has the checksum of the published build, if there is one, and a good signature, if
  -- one is asked for, and nothing before: only on Amazon Linux 2023 a gpg that cannot verify it is
  -- passed over.
  pub attempt-Accepted :
      (options : Options) (url : Text) (sha256 : Option Text) (sig : Option SignatureUrl)
      (w : World)
      → Untouched w (attempt outside options url sha256 sig w)
        ⊎ Expanded options sha256 sig w (attempt outside options url sha256 sig w)
  unfolding attempt Untouched ◌>>=◌ continue read_cached
  attempt-Accepted options url sha256 sig w =
      let d = download outside url w in by d.0 d.1 (download-Still url w)
    where
      after : Cached → Exec World Failure ExpandResult
      after cached = read_cached outside cached >>= λ content. check outside sha256 content >>= λ _.
          verify_signature outside sig content >>= λ _. expand outside options cached content

      by :
          (r : Result Failure Cached) (w₁ : World)
          → w₁.placed ≡ w.placed
          → Good options sha256 sig w (continue r after w₁)
      by (ok cached) w₁ same = checked-Good options sha256 sig w cached _ w₁ same
      by (raise x) w₁ same = inl same
