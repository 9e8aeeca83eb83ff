-- ===== src/SqlBridge/Toy.antt =====
-- A concrete SQLite that meets the interface: its state is the serialization of the one database.
use idris2_ouc.Base.{ℕ, List, [], none, some, true, refl}
use idris2_ouc.SqlBridge.Api.{SqliteApi}
use idris2_ouc.SqlBridge.{Bridge}
use idris2_ouc.SqlBridge.Content.{HasContent}

-- Every call succeeds. A statement has no row.
abbrev pub toy : SqliteApi
toy = record {
  World = List ℕ;
  Db = ℕ;
  Stmt = ℕ;
  sqlite3_open = λ w. (0, 5, []);
  sqlite3_close = λ d w. (0, w);
  sqlite3_exec = λ d sql w. (0, sql);
  sqlite3_errmsg = λ d w. [];
  sqlite3_changes = λ d w. 1;
  sqlite3_last_insert_rowid = λ d w. 1;
  sqlite3_prepare = λ d sql w. (0, some 9, w);
  sqlite3_step = λ st w. (101, w);
  sqlite3_reset = λ st w. (0, w);
  sqlite3_finalize = λ st w. (0, w);
  sqlite3_bind_null = λ st i w. (0, w);
  sqlite3_bind_int64 = λ st i v w. (0, w);
  sqlite3_bind_text = λ st i v w. (0, w);
  sqlite3_bind_blob = λ st i v w. (0, w);
  sqlite3_column_count = λ st w. 0;
  sqlite3_column_type = λ st i w. 5;
  sqlite3_column_int64 = λ st i w. 0;
  sqlite3_column_text = λ st i w. none;
  sqlite3_column_bytes = λ st i w. 0;
  sqlite3_column_blob = λ st i w. none;
  sqlite3_serialize = λ d w. some w;
  sqlite3_malloc64 = λ n w. true;
  sqlite3_deserialize = λ d bs w. (0, bs);
  serialize-deserialize = λ d bs w e. refl;
}

abbrev pub closed_bridge : Bridge toy
closed_bridge = record { db = none; stmt = none; world = [] }

-- An open database whose serialization is `bs`.
abbrev pub open_bridge : List ℕ → Bridge toy
open_bridge bs = record { db = some 5; stmt = none; world = bs }

pub open_bridge-HasContent : (bs : List ℕ) → HasContent toy (open_bridge bs) bs
open_bridge-HasContent bs = record { handle = 5; is_open = refl; serialized = refl }
