-- ===== src/Lifecycle/Upgrade.antt =====
-- An upgrade of the canister, from lib/ic0/canister_entry.c down to the stable memory.
use idris2_ouc.Base.{ℕ, ◌≤◌, ◌<◌, ◌≡◌, refl, List, Option, some, true, length, arith}
use idris2_ouc.Word.{IsU64}
use idris2_ouc.Stable.{StableApi}
use idris2_ouc.Stable.Growth.{GrowsTo32}
use idris2_ouc.SqlBridge.Api.{SqliteApi}
use idris2_ouc.SqlBridge.{sql_deserialize}
use idris2_ouc.SqlBridge.Content.{HasContent, deserialize-HasContent}
use idris2_ouc.Snapshot.{Store, sqlite_stable_save, sqlite_stable_load, sqlite_stable_has_snapshot}
use idris2_ouc.Snapshot.Restore.{HasSnapshot, save-Saved, load-HasSnapshot, get_info-HasSnapshot}
use idris2_ouc.Idris.{Machine}
use idris2_ouc.Lifecycle.{canister_pre_upgrade, canister_post_upgrade, start_idris2}

module _ (st : StableApi) (sq : SqliteApi)
    (main : Machine (Store st sq) → Option (Machine (Store st sq))) where
  open st use {pages}

  pre_upgrade_lem :
      (timestamp rc : ℕ) (m : Machine (Store st sq)) (s : Store st sq)
      → sqlite_stable_save st sq 1 timestamp m.rest ≡ some (rc, s)
      → canister_pre_upgrade st sq main timestamp m ≡ some (record m { rest = s })
  unfolding canister_pre_upgrade
  pre_upgrade_lem timestamp rc m s e = ground (arith, e)

  post_upgrade_lem :
      (m : Machine (Store st sq)) (s : Store st sq)
      → sqlite_stable_has_snapshot st sq m.rest ≡ some true
      → sqlite_stable_load st sq m.rest ≡ some (0, s)
      → canister_post_upgrade st sq main m ≡ start_idris2 st sq main (record m { rest = s })
  unfolding canister_post_upgrade
  post_upgrade_lem m s h e = ground (arith, h, e)

  -- An upgrade hands the database on to the Idris2 code of the new canister. `canister_pre_upgrade`
  -- leaves a memory from which `canister_post_upgrade`, in a canister whose variables are anything,
  -- restores the database before the Idris2 code is started: it then starts on an open
  -- database with the same serialization, and with schema version 1. (An open database of at most
  -- 100 MB, a memory below 2^16 pages, a system that grants pages, and SQLite accepts the
  -- serialization.)
  pub pre_upgrade-post_upgrade :
      (timestamp : ℕ) (bs : List ℕ) (m fresh : Machine (Store st sq))
      → GrowsTo32 st
      → pages m.rest.mem < 65536
      → HasContent sq m.rest.bridge bs
      → length bs ≤ 104857600
      → IsU64 timestamp
      → (sql_deserialize sq bs fresh.rest.bridge).0 ≡ 0
      → (m' : Machine (Store st sq)) × (canister_pre_upgrade st sq main timestamp m ≡ some m')
        × (t : Store st sq) × (canister_post_upgrade st sq main
              (record fresh { rest = record fresh.rest { mem = m'.rest.mem } })
            ≡ start_idris2 st sq main (record fresh { rest = t }))
        × HasContent sq t.bridge bs
        × (t.loaded_schema ≡ 1)
  pre_upgrade-post_upgrade timestamp bs m fresh grows small h bound ht accepts =
      let (s, e, saved) =
        save-Saved st sq 1 timestamp bs m.rest grows small h bound (omega arith) ht in
      let f = record fresh { rest = record fresh.rest { mem = s.mem } } in
      let t : Store st sq = record f.rest {
        bridge = (sql_deserialize sq bs fresh.rest.bridge).1;
        loaded_schema = 1;
      } in
      (
        record m { rest = s },
        pre_upgrade_lem timestamp 0 m s e,
        t,
        post_upgrade_lem f t (get_info-HasSnapshot st sq 1 timestamp bs f.rest saved.snapshot).0
            (load-HasSnapshot st sq 1 timestamp bs f.rest saved.snapshot accepts),
        deserialize-HasContent sq bs fresh.rest.bridge accepts,
        refl,
      )

  -- Where the save is refused and changes nothing (no open database, or one of more than 100 MB), the
  -- upgrade goes on without a word: the new canister starts on the database of the last
  -- snapshot, however old it is.
  pub refused-post_upgrade :
      (timestamp rc schema old_time : ℕ) (old : List ℕ) (m fresh : Machine (Store st sq))
      → sqlite_stable_save st sq 1 timestamp m.rest ≡ some (rc, m.rest)
      → HasSnapshot st sq m.rest.mem schema old_time old
      → (sql_deserialize sq old fresh.rest.bridge).0 ≡ 0
      → (m' : Machine (Store st sq)) × (canister_pre_upgrade st sq main timestamp m ≡ some m')
        × (t : Store st sq) × (canister_post_upgrade st sq main
              (record fresh { rest = record fresh.rest { mem = m'.rest.mem } })
            ≡ start_idris2 st sq main (record fresh { rest = t }))
        × HasContent sq t.bridge old
  refused-post_upgrade timestamp rc schema old_time old m fresh e saved accepts =
      let f = record fresh { rest = record fresh.rest { mem = m.rest.mem } } in
      let t : Store st sq = record f.rest {
        bridge = (sql_deserialize sq old fresh.rest.bridge).1;
        loaded_schema = schema;
      } in
      (
        m,
        pre_upgrade_lem timestamp rc m m.rest e,
        t,
        post_upgrade_lem f t (get_info-HasSnapshot st sq schema old_time old f.rest saved).0
            (load-HasSnapshot st sq schema old_time old f.rest saved accepts),
        deserialize-HasContent sq old fresh.rest.bridge accepts,
      )
