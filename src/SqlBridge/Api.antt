-- ===== src/SqlBridge/Api.antt =====
-- The functions of SQLite that lib/ic0/sqlite_bridge.c calls. `World` is SQLite's own state: what its
-- handles stand for. Result codes are numbers, 0 for SQLITE_OK.
use idris2_ouc.Base.{ℕ, List, Bool, Option, some, ◌≡◌}

pub record SqliteApi : Type 1 where
  pub World : Type 0
  pub Db : Type 0
  pub Stmt : Type 0
  pub sqlite3_open : World → ℕ × Db × World
  pub sqlite3_close : Db → World → ℕ × World
  pub sqlite3_exec : Db → List ℕ → World → ℕ × World
  pub sqlite3_errmsg : Db → World → List ℕ
  pub sqlite3_changes : Db → World → ℕ
  pub sqlite3_last_insert_rowid : Db → World → ℕ
  -- `none` where SQLite leaves a null statement.
  pub sqlite3_prepare : Db → List ℕ → World → ℕ × Option Stmt × World
  pub sqlite3_step : Stmt → World → ℕ × World
  pub sqlite3_reset : Stmt → World → ℕ × World
  pub sqlite3_finalize : Stmt → World → ℕ × World
  pub sqlite3_bind_null : Stmt → ℕ → World → ℕ × World
  pub sqlite3_bind_int64 : Stmt → ℕ → ℕ → World → ℕ × World
  pub sqlite3_bind_text : Stmt → ℕ → List ℕ → World → ℕ × World
  pub sqlite3_bind_blob : Stmt → ℕ → List ℕ → World → ℕ × World
  pub sqlite3_column_count : Stmt → World → ℕ
  pub sqlite3_column_type : Stmt → ℕ → World → ℕ
  pub sqlite3_column_int64 : Stmt → ℕ → World → ℕ
  -- `none` is a null pointer.
  pub sqlite3_column_text : Stmt → ℕ → World → Option (List ℕ)
  pub sqlite3_column_bytes : Stmt → ℕ → World → ℕ
  pub sqlite3_column_blob : Stmt → ℕ → World → Option (List ℕ)
  pub sqlite3_serialize : Db → World → Option (List ℕ)
  -- Whether SQLite has this much memory to give.
  pub sqlite3_malloc64 : ℕ → World → Bool
  pub sqlite3_deserialize : Db → List ℕ → World → ℕ × World
  -- A database that was made from a serialization has that serialization.
  pub serialize-deserialize :
      (d : Db) (bs : List ℕ) (w : World)
      → (sqlite3_deserialize d bs w).0 ≡ 0
      → sqlite3_serialize d (sqlite3_deserialize d bs w).1 ≡ some bs
