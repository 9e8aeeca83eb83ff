-- ===== src/Lifecycle/Tests.antt =====
-- The upgrade at a concrete database of three bytes and an empty memory.
use idris2_ouc.Base.{ℕ, ◌≡◌, refl, List, [], ◌∷◌, ◌++◌, Option, some, arith, replicate}
use idris2_ouc.Stable.Flat.{flat, empty_memory}
use idris2_ouc.Stable.Growth.{GrowsTo32}
use idris2_ouc.SqlBridge.{sql_is_open, sql_deserialize, deserialize_into, sql_close, drop_stmt}
use idris2_ouc.SqlBridge.Content.{HasContent}
use idris2_ouc.SqlBridge.Toy.{toy, closed_bridge, open_bridge, open_bridge-HasContent}
use idris2_ouc.Word.Bytes.{write_u32, write_u64, write_u64_loop}
use idris2_ouc.Stable.Span.{patch}
use idris2_ouc.Snapshot.{Store, build_header, compute_checksum, checksum_loop, sqlite_stable_save}
use idris2_ouc.Snapshot.Restore.{HasSnapshot}
use idris2_ouc.Idris.{Machine}
use idris2_ouc.Lifecycle.{canister_pre_upgrade, canister_post_upgrade, start_idris2}
use idris2_ouc.Lifecycle.Upgrade.{pre_upgrade-post_upgrade, refused-post_upgrade}

abbrev content : List ℕ
content = 10 ∷ 20 ∷ 30 ∷ []

abbrev running : Machine (Store flat toy)
running = record {
  channel = record { args = replicate 8 0; result = 0 };
  candid = record { buf = []; len = 0 };
  json = record { buf = []; len = 0 };
  rest = record { bridge = open_bridge content; loaded_schema = 0; mem = empty_memory };
}

abbrev fresh : Machine (Store flat toy)
fresh = record running { rest = record running.rest { bridge = closed_bridge } }

-- An Idris2 code that answers 1.
abbrev answers_one : Machine (Store flat toy) → Option (Machine (Store flat toy))
answers_one m = some (record m { channel = record m.channel { result = 1 } })

flat_grows : GrowsTo32 flat
flat_grows = λ n m h. refl

toy_accepts : (sql_deserialize toy content closed_bridge).0 ≡ 0
unfolding sql_deserialize deserialize_into sql_close drop_stmt
toy_accepts = refl

pre_upgrade-post_upgrade_example :
    (m' : Machine (Store flat toy)) × (canister_pre_upgrade flat toy answers_one 1000 running
      ≡ some m')
    × (t : Store flat toy) × (canister_post_upgrade flat toy answers_one
          (record fresh { rest = record fresh.rest { mem = m'.rest.mem } })
        ≡ start_idris2 flat toy answers_one (record fresh { rest = t }))
    × HasContent toy t.bridge content
    × (t.loaded_schema ≡ 1)
pre_upgrade-post_upgrade_example =
    pre_upgrade-post_upgrade flat toy answers_one 1000 content running fresh flat_grows
      (omega arith) (open_bridge-HasContent content) (omega arith) (omega arith) toy_accepts

-- The memory of a canister with no open database that saved three bytes before.
abbrev closed : Machine (Store flat toy)
closed = record running {
  rest = record {
    bridge = closed_bridge;
    loaded_schema = 0;
    mem = record { size = 1; cell = patch 0 (build_header 3 3 7 60 ++ content) (λ _. 0) };
  };
}

closed-HasSnapshot : HasSnapshot flat toy closed.rest.mem 3 7 content
unfolding patch build_header write_u32 write_u64 write_u64_loop compute_checksum checksum_loop
closed-HasSnapshot = record {
  header_at = refl;
  bytes_at = refl;
  room = omega arith;
  bounded = omega arith;
  schema_word = omega arith;
  time_word = omega arith;
}

refused : sqlite_stable_save flat toy 1 1000 closed.rest ≡ some (1, closed.rest)
unfolding sqlite_stable_save sql_is_open
refused = refl

refused-post_upgrade_example :
    (m' : Machine (Store flat toy)) × (canister_pre_upgrade flat toy answers_one 1000 closed
      ≡ some m')
    × (t : Store flat toy) × (canister_post_upgrade flat toy answers_one
          (record fresh { rest = record fresh.rest { mem = m'.rest.mem } })
        ≡ start_idris2 flat toy answers_one (record fresh { rest = t }))
    × HasContent toy t.bridge content
refused-post_upgrade_example =
    refused-post_upgrade flat toy answers_one 1000 1 3 7 content closed fresh refused
      closed-HasSnapshot toy_accepts
