-- ===== src/Snapshot/Tests.antt =====
-- The theorems on snapshots at a concrete database of three bytes and an empty memory.
use idris2_ouc.Base.{ℕ, ◌≡◌, refl, List, [], ◌∷◌, false, some, arith, take, drop, inl}
use idris2_ouc.Word.Bytes.{write_u32, read_u32, write_u64, read_u64, write_u64_loop, read_u64_loop}
use idris2_ouc.Stable.Flat.{Flat, flat, empty_memory}
use idris2_ouc.Stable.Span.{patch, bytes}
use idris2_ouc.Stable.Growth.{GrowsTo32}
use idris2_ouc.StableKv.{Kv, init_if_needed, mem_eq}
use idris2_ouc.StableKv.Layout.{Holds}
use idris2_ouc.SqlBridge.{sql_deserialize, deserialize_into, sql_close, drop_stmt}
use idris2_ouc.SqlBridge.Content.{HasContent}
use idris2_ouc.SqlBridge.Toy.{toy, closed_bridge, open_bridge, open_bridge-HasContent}
use idris2_ouc.Snapshot.{
  Store, sqlite_stable_save, sqlite_stable_load, compute_checksum, checksum_loop, build_header,
  load_bytes,
}
use idris2_ouc.Snapshot.Restore.{HasSnapshot}
use idris2_ouc.Snapshot.Accept.{Passed, load-Passed, load-refuses, save-init_if_needed}

abbrev content : List ℕ
content = 10 ∷ 20 ∷ 30 ∷ []

abbrev running : Store flat toy
running = record { bridge = open_bridge content; loaded_schema = 0; mem = empty_memory }

flat_grows : GrowsTo32 flat
flat_grows = λ n m h. refl

toy_accepts : (sql_deserialize toy content closed_bridge).0 ≡ 0
unfolding sql_deserialize deserialize_into sql_close drop_stmt
toy_accepts = refl

save-init_if_needed_example :
    (s' : Store flat toy) × (sqlite_stable_save flat toy 3 1000 running ≡ some (0, s'))
    × (k : Kv Flat) × (init_if_needed flat
          (record { count = 0; next_free = 12; initialized = false; mem = s'.mem })
        ≡ some k)
    × Holds flat k []
save-init_if_needed_example =
    save-init_if_needed flat toy 3 1000 content running flat_grows (omega arith)
      (open_bridge-HasContent content) (omega arith) (omega arith) (omega arith)

-- A memory with the snapshot of three bytes.
abbrev image : List ℕ
image =
    b'I' ∷ b'D' ∷ b'X' ∷ b'R' ∷ b'S' ∷ b'Q' ∷ b'L' ∷ 0 ∷ 1 ∷ 0 ∷ 0 ∷ 0 ∷ 3 ∷ 0 ∷ 0 ∷ 0 ∷ 3 ∷ 0 ∷ 0
    ∷ 0 ∷ 0 ∷ 0 ∷ 0 ∷ 0 ∷ 7 ∷ 0 ∷ 0 ∷ 0 ∷ 0 ∷ 0 ∷ 0 ∷ 0 ∷ 60 ∷ 0 ∷ 0 ∷ 0 ∷ 0 ∷ 0 ∷ 0 ∷ 0 ∷ 10 ∷ 20
    ∷ 30 ∷ []

abbrev stored : Store flat toy
stored = record {
  bridge = closed_bridge;
  loaded_schema = 0;
  mem = record { size = 1; cell = patch 0 image (λ _. 0) };
}

stored-HasSnapshot : HasSnapshot flat toy stored.mem 3 7 content
unfolding patch build_header write_u32 write_u64 write_u64_loop compute_checksum checksum_loop
stored-HasSnapshot = record {
  header_at = refl;
  bytes_at = refl;
  room = omega arith;
  bounded = omega arith;
  schema_word = omega arith;
  time_word = omega arith;
}

abbrev restored : Store flat toy
restored = record stored { bridge = open_bridge content; loaded_schema = 3 }

load_runs : sqlite_stable_load flat toy stored ≡ some (0, restored)
unfolding sqlite_stable_load load_bytes patch mem_eq read_u32 read_u64 read_u64_loop
    compute_checksum checksum_loop sql_deserialize deserialize_into sql_close drop_stmt
load_runs = refl

load-Passed_example :
    (bs : List ℕ) × Passed flat toy stored (take 40 image) bs
    × (compute_checksum bs ≡ read_u64 (drop 32 (take 40 image)))
    × HasContent toy restored.bridge bs
    × (restored.loaded_schema ≡ read_u32 (drop 12 (take 40 image)))
    × (restored.mem ≡ stored.mem)
load-Passed_example =
    load-Passed flat toy stored restored (take 40 image) (omega arith) (unfold patch in refl)
      load_runs

-- A memory of one page with no snapshot.
abbrev blank : Store flat toy
blank = record running { mem = record { size = 1; cell = λ _. 0 } }

load_blank : sqlite_stable_load flat toy blank ≡ some (1, blank)
unfolding sqlite_stable_load mem_eq
load_blank = refl

load-refuses_example : blank ≡ blank
load-refuses_example =
    load-refuses flat toy blank blank (bytes (λ _. 0) 0 40) 1 (omega arith) refl load_blank
      (inl refl)
