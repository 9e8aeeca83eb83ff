-- ===== src/SqlBridge/Tests.antt =====
-- The theorems on the SQLite bridge at concrete inputs.
use idris2_ouc.Base.{◌≡◌, refl, [], ◌∷◌}
use idris2_ouc.SqlBridge.{sql_deserialize, deserialize_into, sql_close, drop_stmt}
use idris2_ouc.SqlBridge.Handles.{open_db, close_db, prepare_sql, run_ops, IsTidy, run_ops-IsTidy}
use idris2_ouc.SqlBridge.Toy.{toy, closed_bridge}

run_ops-IsTidy_example :
    IsTidy toy (run_ops toy (open_db ∷ prepare_sql (1 ∷ []) ∷ close_db ∷ []) closed_bridge)
run_ops-IsTidy_example =
    run_ops-IsTidy toy (open_db ∷ prepare_sql (1 ∷ []) ∷ close_db ∷ []) closed_bridge (λ e. refl)

toy_accepts : (sql_deserialize toy (4 ∷ 2 ∷ []) closed_bridge).0 ≡ 0
unfolding sql_deserialize deserialize_into sql_close drop_stmt
toy_accepts = refl
