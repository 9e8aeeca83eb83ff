-- ===== src/SqlBridge/Handles.antt =====
-- A statement is held only while its database is open, whatever is called.
use idris2_ouc.Base.{ℕ, ◌≡◌, List, [], ◌∷◌, none, some, arith}
use idris2_ouc.SqlBridge.Api.{SqliteApi}
use idris2_ouc.SqlBridge.{
  Bridge, sql_open, drop_stmt, sql_close, sql_exec, sql_prepare, with_stmt, sql_step, sql_reset,
  sql_bind_null, sql_bind_int, sql_bind_text, sql_bind_blob, sql_finalize, deserialize_into,
  sql_deserialize,
}

-- The calls that change the bridge.
pub data Op : Type 0 where
  open_db close_db step_stmt reset_stmt finalize_stmt : Op
  exec_sql prepare_sql deserialize_db : List ℕ → Op
  bind_null_at : ℕ → Op
  bind_int_at : ℕ → ℕ → Op
  bind_text_at bind_blob_at : ℕ → List ℕ → Op

module _ (api : SqliteApi) where
  unfoldable pub apply_op : Op → Bridge api → ℕ × Bridge api
  apply_op open_db b = sql_open api b
  apply_op close_db b = sql_close api b
  apply_op step_stmt b = sql_step api b
  apply_op reset_stmt b = sql_reset api b
  apply_op finalize_stmt b = sql_finalize api b
  apply_op (exec_sql sql) b = sql_exec api sql b
  apply_op (prepare_sql sql) b = sql_prepare api sql b
  apply_op (deserialize_db buf) b = sql_deserialize api buf b
  apply_op (bind_null_at i) b = sql_bind_null api i b
  apply_op (bind_int_at i v) b = sql_bind_int api i v b
  apply_op (bind_text_at i v) b = sql_bind_text api i v b
  apply_op (bind_blob_at i v) b = sql_bind_blob api i v b

  unfoldable pub run_ops : List Op → Bridge api → Bridge api
  run_ops [] b = b
  run_ops (o ∷ os) b = run_ops os (apply_op o b).1

  -- No statement is left over from a database that was closed.
  abbrev pub IsTidy : Bridge api → Type 0
  IsTidy b = b.db ≡ none → b.stmt ≡ none

  drop_stmt-none : (b : Bridge api) → (drop_stmt api b).stmt ≡ none
  unfolding drop_stmt
  drop_stmt-none b = ground arith

  close-none :
      (b : Bridge api) → ((sql_close api b).1.stmt ≡ none) × ((sql_close api b).1.db ≡ none)
  unfolding sql_close
  close-none b = ground (arith, drop_stmt-none b)

  with_stmt-IsTidy :
      (f : api.Stmt → api.World → ℕ × api.World) (b : Bridge api)
      → IsTidy b
      → IsTidy (with_stmt api f b).1
  unfolding with_stmt
  with_stmt-IsTidy f b h = ground arith

  prepare-IsTidy : (sql : List ℕ) (b : Bridge api) → IsTidy b → IsTidy (sql_prepare api sql b).1
  unfolding sql_prepare drop_stmt
  prepare-IsTidy sql b h = ground arith

  deserialize_into-IsTidy :
      (d : api.Db) (buf : List ℕ) (b : Bridge api)
      → b.stmt ≡ none
      → IsTidy (deserialize_into api d buf b).1
  unfolding deserialize_into
  deserialize_into-IsTidy d buf b h = ground (
    arith,
    close-none b,
    close-none (record b { world = (api.sqlite3_deserialize d buf b.world).1 }),
  )

  deserialize-IsTidy : (buf : List ℕ) (b : Bridge api) → IsTidy (sql_deserialize api buf b).1
  unfolding sql_deserialize
  deserialize-IsTidy buf b =
      let c = (sql_close api b).1 in
      let (rc, d, w) = api.sqlite3_open c.world in
      ground (
        arith,
        close-none b,
        deserialize_into-IsTidy d buf (record c { db = some d; world = w }) (close-none b).0,
      )

  apply_op-IsTidy : (o : Op) (b : Bridge api) → IsTidy b → IsTidy (apply_op o b).1
  unfolding apply_op
  apply_op-IsTidy open_db b h = unfold sql_open in ground arith
  apply_op-IsTidy close_db b h = λ _. (close-none b).0
  apply_op-IsTidy step_stmt b h = unfold sql_step in with_stmt-IsTidy _ b h
  apply_op-IsTidy reset_stmt b h = unfold sql_reset in with_stmt-IsTidy _ b h
  apply_op-IsTidy finalize_stmt b h = unfold sql_finalize in ground arith
  apply_op-IsTidy (exec_sql sql) b h = unfold sql_exec in ground arith
  apply_op-IsTidy (prepare_sql sql) b h = prepare-IsTidy sql b h
  apply_op-IsTidy (deserialize_db buf) b h = deserialize-IsTidy buf b
  apply_op-IsTidy (bind_null_at i) b h = unfold sql_bind_null in with_stmt-IsTidy _ b h
  apply_op-IsTidy (bind_int_at i v) b h = unfold sql_bind_int in with_stmt-IsTidy _ b h
  apply_op-IsTidy (bind_text_at i v) b h = unfold sql_bind_text in with_stmt-IsTidy _ b h
  apply_op-IsTidy (bind_blob_at i v) b h = unfold sql_bind_blob in with_stmt-IsTidy _ b h

  -- From a bridge that is tidy, as it is at the start, every sequence of calls leaves it tidy: a
  -- statement is held only while its database is open.
  pub run_ops-IsTidy : (os : List Op) (b : Bridge api) → IsTidy b → IsTidy (run_ops os b)
  unfolding run_ops
  run_ops-IsTidy [] b h = h
  run_ops-IsTidy (o ∷ os) b h = run_ops-IsTidy os (apply_op o b).1 (apply_op-IsTidy o b h)
