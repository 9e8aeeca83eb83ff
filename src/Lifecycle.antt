-- ===== src/Lifecycle.antt =====
-- The start and the upgrade of the canister in lib/ic0/canister_entry.c: `canister_init`,
-- `canister_pre_upgrade` and `canister_post_upgrade`.
pub mod Upgrade
mod Tests
use idris2_ouc.Base.{ℕ, Option, none, some, ◌>>=◌, Bool, ◌==◌, if◌then◌else◌}
use idris2_ouc.Stable.{StableApi}
use idris2_ouc.SqlBridge.Api.{SqliteApi}
use idris2_ouc.Snapshot.{Store, sqlite_stable_save, sqlite_stable_load, sqlite_stable_has_snapshot}
use idris2_ouc.Idris.{Machine, call_idris2}

module _ (st : StableApi) (sq : SqliteApi)
    (main : Machine (Store st sq) → Option (Machine (Store st sq))) where
  open st use {grow}

  -- `CMD_INIT`; its result is only printed.
  unfoldable pub start_idris2 : Machine (Store st sq) → Option (Machine (Store st sq))
  start_idris2 m = do (result, m') ← call_idris2 main 0 m; some m'

  unfoldable pub canister_init : Machine (Store st sq) → Option (Machine (Store st sq))
  canister_init m = start_idris2 (record m { rest = record m.rest { mem = grow 10 m.rest.mem } })

  -- The time is the system's. The code of the save is only printed.
  unfoldable pub canister_pre_upgrade : ℕ → Machine (Store st sq) → Option (Machine (Store st sq))
  canister_pre_upgrade timestamp m = do
    (rc, s) ← sqlite_stable_save st sq 1 timestamp m.rest
    some (record m { rest = s })

  unfoldable pub canister_post_upgrade : Machine (Store st sq) → Option (Machine (Store st sq))
  canister_post_upgrade m = do
    has ← sqlite_stable_has_snapshot st sq m.rest
    if has
        then (do (rc, s) ← sqlite_stable_load st sq m.rest; start_idris2 (record m { rest = s }))
        else start_idris2 m
