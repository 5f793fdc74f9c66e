-- ===== src/Mongosh/Ends.antt =====
-- The download of mongosh ends, and how often it sleeps.
use drivers_evergreen_tools.Common.{
  ℕ, ◌+◌, ◌≤◌, ◌≡◌, refl, inl, inr, ap, subst, sym, Bool, true, false, Bool-cases, List, [], ◌++◌,
  some, length, length-append, Result, ok, raise, arith,
}
use drivers_evergreen_tools.Common.Exec.{Exec}
use drivers_evergreen_tools.Common.Text.{Text, codes, text_eq}
use drivers_evergreen_tools.Mongodl.Extract.{ExpandResult, okay}
use drivers_evergreen_tools.Mongodl.Retry.{Failure, run}
use drivers_evergreen_tools.Mongodl.Retry.Outcome.{backoffs, length-backoffs, run-Outcome}
use drivers_evergreen_tools.Mongosh.{
  Host, Ended, version_attempt, get_latest_version, named_version, archive_attempt, behind,
  with_url, url_of, with_version, download,
}

module _ {W : Type 0} (host : Host W) where
  -- There is an end, after at most `n` sleeps.
  pub record EndsWithin {A : Type 0} (n : ℕ) (o : Ended host A) : Type 0 where
    pub result : Result Failure A
    pub after : W
    pub slept : List ℕ
    pub ends : o ≡ some (result, after, slept)
    pub few : length slept ≤ n

  run-EndsWithin :
      {A : Type 0} (attempt : Exec W Failure A) (retries : ℕ) (w : W)
      → EndsWithin retries (run attempt retries w)
  run-EndsWithin attempt retries w =
      let o = run-Outcome attempt retries w in
      record {
        result = o.result;
        after = o.after;
        slept = backoffs 0 o.tries;
        ends = o.ends;
        few = omega (arith, length-backoffs 0 o.tries, o.enough);
      }

  named_version-EndsWithin :
      (version : Text) (retries : ℕ) (w : W)
      → EndsWithin retries (named_version host version retries w)
  unfolding named_version get_latest_version
  named_version-EndsWithin version retries w =
      elim (Bool-cases (text_eq version (codes "latest"))) [
        | inl e ↦ rw e (run-EndsWithin (version_attempt host) retries w)
        | inr e ↦
            rw e (record {
              result = ok version;
              after = w;
              slept = [];
              ends = refl;
              few = omega arith;
            })
      ]

  behind-EndsWithin :
      (n m : ℕ) (before : List ℕ) (o : Ended host ExpandResult)
      → length before ≤ n
      → EndsWithin m o
      → EndsWithin (n + m) (behind host before o)
  unfolding behind
  behind-EndsWithin n m before o h e = record {
    result = e.result;
    after = e.after;
    slept = before ++ e.slept;
    ends = ap (behind host before) e.ends;
    few = omega (arith, length-append before e.slept, h, e.few);
  }

  with_url-EndsWithin :
      (no_download : Bool) (retries n : ℕ) (url : Result Failure Text) (w : W) (slept : List ℕ)
      → length slept ≤ n
      → EndsWithin (n + retries) (with_url host no_download retries url w slept)
  unfolding with_url
  with_url-EndsWithin no_download retries n (raise e) w slept h = record {
    result = raise e;
    after = w;
    slept = slept;
    ends = refl;
    few = omega (arith, h);
  }
  with_url-EndsWithin true retries n (ok url) w slept h = record {
    result = ok okay;
    after = w;
    slept = slept;
    ends = refl;
    few = omega (arith, h);
  }
  with_url-EndsWithin false retries n (ok url) w slept h =
      behind-EndsWithin n retries slept _ h (run-EndsWithin (archive_attempt host url) retries w)

  with_version-EndsWithin :
      (target arch : Text) (no_download : Bool) (retries : ℕ) (o : Ended host Text)
      → EndsWithin retries o
      → EndsWithin (retries + retries) (with_version host target arch no_download retries o)
  unfolding with_version
  with_version-EndsWithin target arch no_download retries o e =
      subst
        (λ x. EndsWithin (retries + retries) (with_version host target arch no_download retries x))
        (sym e.ends) (by e.result)
    where
      by :
          (r : Result Failure Text)
          → EndsWithin
              (retries + retries)
              (with_version host target arch no_download retries (some (r, e.after, e.slept)))
      by (raise x) = record {
        result = raise x;
        after = e.after;
        slept = e.slept;
        ends = refl;
        few = omega (arith, e.few);
      }
      by (ok version) =
          with_url-EndsWithin no_download retries retries (url_of host version target arch) e.after
            e.slept e.few

  -- `_download` always ends with a result or an exception, whatever fails, and it sleeps at most
  -- `retries` times for the version and `retries` times for the archive.
  pub download-EndsWithin :
      (version target arch : Text) (no_download : Bool) (retries : ℕ) (w : W)
      → EndsWithin (retries + retries) (download host version target arch no_download retries w)
  unfolding download
  download-EndsWithin version target arch no_download retries w =
      with_version-EndsWithin target arch no_download retries _
        (named_version-EndsWithin version retries w)
