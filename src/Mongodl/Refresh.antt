-- ===== src/Mongodl/Refresh.antt =====
-- `CacheDB.transaction`, `import_json_file` and `Cache.refresh_full_json` of mongodl.py. The parser
-- of JSON is a parameter.
pub mod Atomic
use drivers_evergreen_tools.Common.{
  ℕ, Bool, true, false, List, Option, none, some, if◌then◌else◌, Result, ok, raise,
}
use drivers_evergreen_tools.Common.Exec.{Exec, pure, stop, ◌>>=◌}
use drivers_evergreen_tools.Common.Text.{Text}
use drivers_evergreen_tools.Mongodl.Cache.{
  Cached, Row, Store, Headers, Reply, DownloadResult, download_file,
}
use drivers_evergreen_tools.Mongodl.Cache as Cache
use drivers_evergreen_tools.Mongodl.Database.{Db, Release, import_json_data}

-- The rows of the cache and the tables of the downloads.
pub record Journal : Type 0 where
  pub saved_rows : Text → Option Row
  pub saved_tables : Db

-- The database with all its tables, and the files beside it.
pub record State : Type 0 where
  pub store : Store
  pub tables : Db
  -- What ROLLBACK goes back to, between BEGIN and the end of the transaction.
  pub journal : Option Journal

pub data Error : Type 0 where
  download_failed : Cache.Error → Error
  -- The JSON does not parse, or the import exits.
  bad_json exited : Error

unfoldable pub in_transaction : State → Bool
in_transaction state = elim state.journal [ some saved ↦ true | none ↦ false ]

-- BEGIN
unfoldable pub begun : State → State
begun state = record state {
  journal = some (record { saved_rows = state.store.rows; saved_tables = state.tables });
}

restored : Option Journal → State → State
restored none state = state
restored (some saved) state = record state {
  store = record state.store { rows = saved.saved_rows };
  tables = saved.saved_tables;
}

-- ROLLBACK. It leaves the files as they are.
unfoldable pub rolled_back : State → State
unfolding restored
rolled_back state = record (restored state.journal state) { journal = none }

-- COMMIT
unfoldable pub committed : State → State
committed state = record state { journal = none }

-- The end of `with self._db`.
finish {ℓ} : {A : Type ℓ} → Result Error A × State → Result Error A × State
unfolding committed rolled_back
finish (ok a, after) = (ok a, committed after)
finish (raise e, after) = (raise e, rolled_back after)

-- An inner transaction is part of the outer one.
unfoldable pub transaction : {A : Type 0} → Exec State Error A → Exec State Error A
unfolding in_transaction begun finish
transaction body state = if in_transaction state then body state else finish (body (begun state))

module _ (serve : ℕ → Text → Headers → Reply) (sha256 : Text → Text)
    (load : Option Text → Option (List Release)) (validate : Bool) where
  downloaded :
      Result Cache.Error DownloadResult × Store → State → Result Error DownloadResult × State
  downloaded (ok result, store) state = (ok result, record state { store = store })
  downloaded (raise e, store) state = (raise (download_failed e), record state { store = store })

  download : Text → Exec State Error DownloadResult
  unfolding downloaded
  download url state = downloaded (download_file serve sha256 url state.store) state

  imported : Option Db → Exec State Error (Unit {0})
  imported none = stop exited
  imported (some db) = λ state. (ok tt, record state { tables = db })

  import_parsed : Option (List Release) → Exec State Error (Unit {0})
  unfolding imported
  import_parsed none = stop bad_json
  import_parsed (some versions) = transaction (imported (import_json_data validate versions))

  import_json_file : Cached → Exec State Error (Unit {0})
  unfolding import_parsed
  import_json_file path state = import_parsed (load (state.store.files path)) state

  import_changed : Bool → Cached → Exec State Error (Unit {0})
  unfolding import_json_file
  import_changed true path = import_json_file path
  import_changed false path = pure tt

  unfoldable pub refresh_full_json : Text → Exec State Error (Unit {0})
  unfolding download import_changed
  refresh_full_json source =
      transaction (download source >>= λ dl. import_changed dl.is_changed dl.path)
