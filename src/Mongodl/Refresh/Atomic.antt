-- ===== src/Mongodl/Refresh/Atomic.antt =====
-- A refresh of the list of downloads happens whole or not at all.
use drivers_evergreen_tools.Common.{◌≡◌, ◌⊎◌, Bool, List, Option, some, none, Result, ok, raise}
use drivers_evergreen_tools.Common.Exec.{Exec}
use drivers_evergreen_tools.Common.Text.{Text}
use drivers_evergreen_tools.Mongodl.Cache.{Cached}
use drivers_evergreen_tools.Mongodl.Cache as Cache
use drivers_evergreen_tools.Mongodl.Database.{Db, Release, import_json_data}
use drivers_evergreen_tools.Mongodl.Refresh.{Journal, State, Error}

module _ (load : Option Text → Option (List Release)) (validate : Bool) where
  -- The tables are those of a list of downloads that stands in a file.
  abbrev IsImported : State → Type 0
  IsImported state =
      (path : Cached) × (versions : List Release) × (load (state.store.files path) ≡ some versions)
      × (import_json_data validate versions ≡ some state.tables)

  abbrev IsNew : Db → State → Type 0
  IsNew tables state = (state.tables ≡ tables) ⊎ IsImported state

  -- Inside of the transaction: the journal is still there.
  Within : Journal → Db → Result Error (Unit {0}) × State → Type 0
  Within saved tables (ok _, s) = (s.journal ≡ some saved) × IsNew tables s
  Within saved tables (raise e, s) = s.journal ≡ some saved

  -- No transaction is open, and the tables and rows are the old ones after an exception.
  pub IsWhole : State → Result Error (Unit {0}) × State → Type 0
  IsWhole state (ok _, after) = (after.journal ≡ none) × IsNew state.tables after
  IsWhole state (raise e, after) =
      (after.journal ≡ none) × (after.store.rows ≡ state.store.rows) × (after.tables ≡ state.tables)
