-- ===== src/Mongodl/Component.antt =====
-- `_dl_component` and the choices of `main` in mongodl.py, over the cache, the archives and the loop
-- of attempts. Opening an archive, the hash, and `verify_latest_build` are parameters.
pub mod Checked
use drivers_evergreen_tools.Common.{
  ℕ, Bool, true, false, ◌&&◌, ◌||◌, not, List, [], ◌∷◌, Option, none, some, if◌then◌else◌, Result,
  ok, raise,
}
use drivers_evergreen_tools.Common.Exec.{Exec, pure, stop, ◌>>=◌}
use drivers_evergreen_tools.Common.Text.{Text, codes, text_eq}
use drivers_evergreen_tools.Mongodl.Retry.{Failure, gpg_environment, transient, run}
use drivers_evergreen_tools.Mongodl.Cache.{
  Cached, Store, Headers, Reply, DownloadResult, download_file,
}
use drivers_evergreen_tools.Mongodl.Files.{Files}
use drivers_evergreen_tools.Mongodl.Extract.{
  Options, TarMember, ZipMember, ExpandResult, expand_archive,
}
use drivers_evergreen_tools.Mongodl.Extract as Extract
use drivers_evergreen_tools.Mongodl.Cache as Cache
use drivers_evergreen_tools.Mongodl.Builds.{SignatureUrl}

pub record World : Type 0 where
  pub store : Store
  pub placed : Files

-- What `verify_latest_build` may do: return, raise a GpgEnvironmentError, or another exception.
pub data Verdict : Type 0 where
  verified : Verdict
  no_gpg : Text → Verdict
  rejected : Text → Verdict

-- What an attempt needs of the outside.
pub record Outside : Type 0 where
  pub serve : ℕ → Text → Headers → Reply
  pub sha256 : Text → Text
  pub verify : Text → SignatureUrl → Verdict
  pub amazon2023 : Bool
  pub open_tar : Text → Text → Result Extract.Error (List TarMember)
  pub open_zip : Text → Text → Result Extract.Error (List ZipMember)

module _ (outside : Outside) where
  downloaded : Result Cache.Error DownloadResult × Store → Files → Result Failure Cached × World
  downloaded (ok result, store) placed = (ok result.path, record { store = store; placed = placed })
  downloaded (raise e, store) placed =
      (raise (transient (codes "download")), record { store = store; placed = placed })

  download : Text → Exec World Failure Cached
  unfolding downloaded
  download url w = downloaded (download_file outside.serve outside.sha256 url w.store) w.placed

  content_of : Option Text → Text
  content_of none = []
  content_of (some content) = content

  -- `_check_shasum256`
  abbrev pub check_shasum256 : Text → Text → Bool
  check_shasum256 content shasum = text_eq shasum (outside.sha256 content)

  check : Option Text → Text → Exec World Failure (Unit {0})
  check none content = pure tt
  check (some shasum) content =
      if not (check_shasum256 content shasum)
      then stop (transient (codes "Incorrect shasum256"))
      else pure tt

  -- On Amazon Linux 2023 a broken gpg is tolerated.
  judged : Verdict → Exec World Failure (Unit {0})
  judged verified = pure tt
  judged (rejected t) = stop (transient t)
  judged (no_gpg t) = if not outside.amazon2023 then stop (gpg_environment t) else pure tt

  verify_signature : Option SignatureUrl → Text → Exec World Failure (Unit {0})
  unfolding judged
  verify_signature none content = pure tt
  verify_signature (some sig) content = judged (outside.verify content sig)

  expanded : Result Extract.Error ExpandResult × Files → Store → Result Failure ExpandResult × World
  expanded (ok result, placed) store = (ok result, record { store = store; placed = placed })
  expanded (raise e, placed) store =
      (raise (transient (codes "expand")), record { store = store; placed = placed })

  unfoldable pub expand : Options → Cached → Text → Exec World Failure ExpandResult
  unfolding expanded
  expand options cached content w =
      expanded
        (expand_archive options cached.name (outside.open_tar content) (outside.open_zip content)
          w.placed)
        w.store

  read_cached : Cached → Exec World Failure Text
  unfolding content_of
  read_cached cached w = (ok (content_of (w.store.files cached)), w)

  -- One round of the loop. What is downloaded is checked, then verified, then expanded.
  unfoldable pub attempt :
      Options → Text → Option Text → Option SignatureUrl → Exec World Failure ExpandResult
  unfolding download check verify_signature read_cached expand
  attempt options url sha256 sig = download url >>= λ cached. read_cached cached >>= λ content.
      check sha256 content >>= λ _.
      verify_signature sig content >>= λ _. expand options cached content

  -- The loop of `_dl_component`, for a build that is chosen.
  unfoldable pub download_build :
      ℕ
      → Options
      → Text
      → Option Text
      → Option SignatureUrl
      → World
      → Option (Result Failure ExpandResult × World × List ℕ)
  download_build retries options url sha256 sig w = run (attempt options url sha256 sig) retries w
