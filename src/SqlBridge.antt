-- ===== src/SqlBridge.antt =====
-- lib/ic0/sqlite_bridge.c: one connection `g_db` and one prepared statement `g_stmt` over SQLite, which
-- is an interface here. The stub that the file holds for builds without SQLite is left out.
-- The `sql_ffi_*` functions that only convert numbers are left out; the others are in `Text`.
pub mod Api
pub mod Handles
pub mod Content
pub mod Text
pub mod Toy
mod Tests
use idris2_ouc.Base.{
  ℕ, ◌+◌, ◌<◌, List, [], Bool, true, false, Option, none, some, ltb, if◌then◌else◌, length, take,
  ◌==◌,
}
use idris2_ouc.SqlBridge.Api.{SqliteApi}

module _ (api : SqliteApi) where
  open api use {
    World, Db, Stmt, sqlite3_open, sqlite3_close, sqlite3_exec, sqlite3_errmsg, sqlite3_changes,
    sqlite3_last_insert_rowid, sqlite3_prepare, sqlite3_step, sqlite3_reset, sqlite3_finalize,
    sqlite3_bind_null, sqlite3_bind_int64, sqlite3_bind_text, sqlite3_bind_blob,
    sqlite3_column_count, sqlite3_column_type, sqlite3_column_int64, sqlite3_column_text,
    sqlite3_column_bytes, sqlite3_column_blob, sqlite3_serialize, sqlite3_malloc64,
    sqlite3_deserialize,
  }

  -- `g_db` and `g_stmt`, where `none` is NULL, and the state of SQLite.
  pub record Bridge : Type 0 where
    pub db : Option Db
    pub stmt : Option Stmt
    pub world : World

  unfoldable pub sql_open : Bridge → ℕ × Bridge
  sql_open b = elim (b.db) [
    | some d ↦ (0, b)
    | none ↦
        let (rc, d, w) = sqlite3_open b.world in
        (rc, record b { db = if rc == 0 then some d else none; world = w })
  ]

  -- `if (g_stmt != NULL) { sqlite3_finalize(g_stmt); g_stmt = NULL; }`
  unfoldable pub drop_stmt : Bridge → Bridge
  drop_stmt b = elim (b.stmt) [
    | none ↦ b
    | some st ↦ record b { stmt = none; world = (sqlite3_finalize st b.world).1 }
  ]

  unfoldable pub sql_close : Bridge → ℕ × Bridge
  sql_close b =
      let c = drop_stmt b in
      elim (c.db) [
        | none ↦ (0, c)
        | some d ↦ let (rc, w) = sqlite3_close d c.world in (rc, record c { db = none; world = w })
      ]

  unfoldable pub sql_is_open : Bridge → Bool
  sql_is_open b = elim (b.db) [ some d ↦ true | none ↦ false ]

  unfoldable pub sql_exec : List ℕ → Bridge → ℕ × Bridge
  sql_exec sql b = elim (b.db) [
    | none ↦ (1, b)
    | some d ↦ let (rc, w) = sqlite3_exec d sql b.world in (rc, record b { world = w })
  ]

  -- `none` is the text "Database not open".
  unfoldable pub sql_errmsg : Bridge → Option (List ℕ)
  sql_errmsg b = elim (b.db) [ none ↦ none | some d ↦ some (sqlite3_errmsg d b.world) ]

  unfoldable pub sql_changes : Bridge → ℕ
  sql_changes b = elim (b.db) [ none ↦ 0 | some d ↦ sqlite3_changes d b.world ]

  unfoldable pub sql_last_insert_rowid : Bridge → ℕ
  sql_last_insert_rowid b = elim (b.db) [ none ↦ 0 | some d ↦ sqlite3_last_insert_rowid d b.world ]

  unfoldable pub sql_prepare : List ℕ → Bridge → ℕ × Bridge
  sql_prepare sql b = elim (b.db) [
    | none ↦ (1, b)
    | some d ↦
        let c = drop_stmt b in
        let (rc, st, w) = sqlite3_prepare d sql c.world in (rc, record c { stmt = st; world = w })
  ]

  -- `if (g_stmt == NULL) return 1; return call(g_stmt);`
  unfoldable pub with_stmt : (Stmt → World → ℕ × World) → Bridge → ℕ × Bridge
  with_stmt call b = elim (b.stmt) [
    | none ↦ (1, b)
    | some st ↦ let (rc, w) = call st b.world in (rc, record b { world = w })
  ]

  unfoldable pub sql_step : Bridge → ℕ × Bridge
  sql_step = with_stmt sqlite3_step

  unfoldable pub sql_reset : Bridge → ℕ × Bridge
  sql_reset = with_stmt sqlite3_reset

  unfoldable pub sql_bind_null : ℕ → Bridge → ℕ × Bridge
  sql_bind_null idx = with_stmt (λ st. sqlite3_bind_null st idx)

  unfoldable pub sql_bind_int : ℕ → ℕ → Bridge → ℕ × Bridge
  sql_bind_int idx val = with_stmt (λ st. sqlite3_bind_int64 st idx val)

  unfoldable pub sql_bind_text : ℕ → List ℕ → Bridge → ℕ × Bridge
  sql_bind_text idx val = with_stmt (λ st. sqlite3_bind_text st idx val)

  unfoldable pub sql_bind_blob : ℕ → List ℕ → Bridge → ℕ × Bridge
  sql_bind_blob idx val = with_stmt (λ st. sqlite3_bind_blob st idx val)

  unfoldable pub sql_finalize : Bridge → ℕ × Bridge
  sql_finalize b = elim (b.stmt) [
    | none ↦ (0, b)
    | some st ↦
        let (rc, w) = sqlite3_finalize st b.world in (rc, record b { stmt = none; world = w })
  ]

  unfoldable pub sql_column_count : Bridge → ℕ
  sql_column_count b = elim (b.stmt) [ none ↦ 0 | some st ↦ sqlite3_column_count st b.world ]

  -- 5 is SQLITE_NULL.
  unfoldable pub sql_column_type : ℕ → Bridge → ℕ
  sql_column_type idx b = elim (b.stmt) [ none ↦ 5 | some st ↦ sqlite3_column_type st idx b.world ]

  unfoldable pub sql_column_int : ℕ → Bridge → ℕ
  sql_column_int idx b = elim (b.stmt) [ none ↦ 0 | some st ↦ sqlite3_column_int64 st idx b.world ]

  unfoldable pub sql_column_text : ℕ → Bridge → List ℕ
  sql_column_text idx b = elim (b.stmt) [
    | none ↦ []
    | some st ↦ elim (sqlite3_column_text st idx b.world) [ none ↦ [] | some text ↦ text ]
  ]

  unfoldable pub sql_column_bytes : ℕ → Bridge → ℕ
  sql_column_bytes idx b = elim (b.stmt) [
    | none ↦ 0
    | some st ↦ sqlite3_column_bytes st idx b.world
  ]

  unfoldable pub sql_column_blob : ℕ → Bridge → Option (List ℕ)
  sql_column_blob idx b = elim (b.stmt) [
    | none ↦ none
    | some st ↦ sqlite3_column_blob st idx b.world
  ]

  -- `none` is -1.
  unfoldable pub sql_serialize_size : Bridge → Option ℕ
  sql_serialize_size b = elim (b.db) [
    | none ↦ none
    | some d ↦ elim (sqlite3_serialize d b.world) [ none ↦ none | some bs ↦ some (length bs) ]
  ]

  -- The number of bytes that are copied, and these bytes; `none` is -1.
  unfoldable pub sql_serialize : ℕ → Bridge → Option (ℕ × List ℕ)
  sql_serialize max_len b = elim (b.db) [
    | none ↦ none
    | some d ↦ elim (sqlite3_serialize d b.world) [
      | none ↦ none
      | some bs ↦
          let copy_len = if ltb (length bs) max_len then length bs else max_len in
          some (copy_len, take copy_len bs)
    ]
  ]

  -- The part of `sql_deserialize` behind a successful `sqlite3_open`; 7 is SQLITE_NOMEM.
  unfoldable pub deserialize_into : Db → List ℕ → Bridge → ℕ × Bridge
  deserialize_into d buf b =
      if sqlite3_malloc64 (length buf) b.world
      then (let (rc, w) = sqlite3_deserialize d buf b.world in
          let c = record b { world = w } in if rc == 0 then (rc, c) else (rc, (sql_close c).1))
      else (7, (sql_close b).1)

  unfoldable pub sql_deserialize : List ℕ → Bridge → ℕ × Bridge
  sql_deserialize buf b0 =
      let b = (sql_close b0).1 in
      let (rc, d, w) = sqlite3_open b.world in
      if rc == 0
      then deserialize_into d buf (record b { db = some d; world = w })
      else (rc, record b { db = none; world = w })
