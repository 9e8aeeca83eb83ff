-- ===== src/Snapshot/Accept.antt =====
-- What `sqlite_stable_load` refuses, and what it leaves then; and what a save does to the key-value
-- storage that shares the memory.
use idris2_ouc.Base.{
  ℕ, ◌≤◌, ◌<◌, ◌≡◌, refl, ap, List, [], true, false, some, length, arith, ◌==◌, take, drop, ◌⊎◌,
  inl, inr, Option-cases, Bool-cases, leb, ◌&&◌,
}
use idris2_ouc.Word.{IsU32, IsU64}
use idris2_ouc.Word.Bytes.{read_u32, read_u64}
use idris2_ouc.Stable.{StableApi}
use idris2_ouc.Stable.Span.{bytes}
use idris2_ouc.Stable.Growth.{GrowsTo32}
use idris2_ouc.StableKv.{mem_eq, Kv, init_if_needed}
use idris2_ouc.StableKv
use idris2_ouc.StableKv.Layout.{Holds}
use idris2_ouc.StableKv.Promise.{init-foreign}
use idris2_ouc.SqlBridge.Api.{SqliteApi}
use idris2_ouc.SqlBridge.{sql_deserialize}
use idris2_ouc.SqlBridge.Content.{HasContent, deserialize-HasContent}
use idris2_ouc.Snapshot.{
  Store, magic, compute_checksum, build_header, sqlite_stable_save, sqlite_stable_load, load_bytes,
}
use idris2_ouc.Snapshot.Restore.{save-Saved}

module _ (st : StableApi) (sq : SqliteApi) where
  open st use {Mem, pages, byte, read, read_in}

  load_bytes-zero :
      (h bs : List ℕ) (s t : Store st sq)
      → load_bytes st sq h bs s ≡ (0, t)
      → (compute_checksum bs ≡ read_u64 (drop 32 h))
        × ((sql_deserialize sq bs s.bridge).0 ≡ 0)
        × (t.bridge ≡ (sql_deserialize sq bs s.bridge).1)
        × (t.loaded_schema ≡ read_u32 (drop 12 h))
        × (t.mem ≡ s.mem)
  unfolding load_bytes
  load_bytes-zero h bs s t e = ground arith

  -- A header `h` that passes the tests of `sqlite_stable_load`, and the bytes that it announces.
  pub record Passed (s : Store st sq) (h bs : List ℕ) : Type 0 where
    pub bytes_read : read 40 (read_u64 (drop 16 h)) s.mem ≡ some bs
    pub magic_ok : mem_eq 8 h magic ≡ true
    pub version_ok : read_u32 (drop 8 h) ≡ 1
    pub bounded : read_u64 (drop 16 h) ≤ 104857600

  load_refused :
      (s t : Store st sq) (rc : ℕ) (h : List ℕ)
      → 1 ≤ pages s.mem
      → read 0 40 s.mem ≡ some h
      → sqlite_stable_load st sq s ≡ some (rc, t)
      → (mem_eq 8 h magic && read_u32 (drop 8 h) == 1 && leb (read_u64 (drop 16 h)) 104857600
          ≡ false)
      → (rc ≡ 1) × (t ≡ s)
  unfolding sqlite_stable_load
  load_refused s t rc h has r e bad = ground arith

  load-Passed_bytes :
      (s t : Store st sq) (rc : ℕ) (h : List ℕ)
      → 1 ≤ pages s.mem
      → read 0 40 s.mem ≡ some h
      → sqlite_stable_load st sq s ≡ some (rc, t)
      → (mem_eq 8 h magic && read_u32 (drop 8 h) == 1 && leb (read_u64 (drop 16 h)) 104857600
          ≡ true)
      → (bs : List ℕ) × Passed s h bs × (load_bytes st sq h bs s ≡ (rc, t))
  unfolding sqlite_stable_load
  load-Passed_bytes s t rc h has r e good =
      elim (Option-cases (read 40 (read_u64 (drop 16 h)) s.mem)) [
        | inl none_read ↦ absurd (ground arith)
        | inr (bs, all_read) ↦ (bs, ground arith, ground arith)
      ]

  -- On a memory that has a page and whose first 40 bytes can be read, `sqlite_stable_load` answers 0
  -- only for a snapshot that is what its header says: magic, format
  -- version, a size of at most 100 MB, the bytes of that size with the stored checksum, and a database
  -- that SQLite made of them. The schema version is the header's and the memory is unchanged.
  pub load-Passed :
      (s t : Store st sq) (h : List ℕ)
      → 1 ≤ pages s.mem
      → read 0 40 s.mem ≡ some h
      → sqlite_stable_load st sq s ≡ some (0, t)
      → (bs : List ℕ) × Passed s h bs
        × (compute_checksum bs ≡ read_u64 (drop 32 h))
        × HasContent sq t.bridge bs
        × (t.loaded_schema ≡ read_u32 (drop 12 h))
        × (t.mem ≡ s.mem)
  load-Passed s t h has r e = elim (Bool-cases _) [
    | inl good ↦
        let (bs, p, l) = load-Passed_bytes s t 0 h has r e good in
        let (sum, rc, b, schema, m) = load_bytes-zero h bs s t l in
        (bs, p, sum, rw b (deserialize-HasContent sq bs s.bridge rc), schema, m)
    | inr bad ↦ absurd (let (z, same) = load_refused s t 0 h has r e bad in omega arith)
  ]

  load_bytes_codes :
      (h bs : List ℕ) (s t : Store st sq) (rc : ℕ)
      → load_bytes st sq h bs s ≡ (rc, t)
      → (rc ≡ 1) ⊎ (rc ≡ 2)
      → t ≡ s
  unfolding load_bytes
  load_bytes_codes h bs s t rc e c = ground arith

  -- If `sqlite_stable_load`, on a memory that has a page and whose first 40 bytes can be read, returns 1
  -- or 2 (no valid snapshot, wrong checksum), the database that is open, the schema version and the
  -- memory are left as they were.
  pub load-refuses :
      (s t : Store st sq) (h : List ℕ) (rc : ℕ)
      → 1 ≤ pages s.mem
      → read 0 40 s.mem ≡ some h
      → sqlite_stable_load st sq s ≡ some (rc, t)
      → (rc ≡ 1) ⊎ (rc ≡ 2)
      → t ≡ s
  load-refuses s t h rc has r e c = elim (Bool-cases _) [
    | inl good ↦
        let (bs, p, l) = load-Passed_bytes s t rc h has r e good in load_bytes_codes h bs s t rc l c
    | inr bad ↦ (load_refused s t rc h has r e bad).1
  ]

  -- A save destroys a key-value storage in the same memory. The magic numbers of both stand at offset
  -- 0, so after an upgrade (variables as at the start, memory kept) the storage starts with no entry,
  -- whatever it held before. (An open database of at most 100 MB, a memory below 2^16
  -- pages, a system that grants pages.)
  pub save-init_if_needed :
      (schema timestamp : ℕ) (bs : List ℕ) (s : Store st sq)
      → GrowsTo32 st
      → pages s.mem < 65536
      → HasContent sq s.bridge bs
      → length bs ≤ 104857600
      → IsU32 schema
      → IsU64 timestamp
      → (s' : Store st sq) × (sqlite_stable_save st sq schema timestamp s ≡ some (0, s'))
        × (k : Kv Mem) × (init_if_needed st
              (record { count = 0; next_free = 12; initialized = false; mem = s'.mem })
            ≡ some k)
        × Holds st k []
  save-init_if_needed schema timestamp bs s grows small h bound hs ht =
      let (s', e, saved) = save-Saved st sq schema timestamp bs s grows small h bound hs ht in
      let (k, i, held) =
        init-foreign st (record { count = 0; next_free = 12; initialized = false; mem = s'.mem })
          refl (omega (arith, saved.snapshot.room)) saved.small
          (foreign (byte s'.mem) schema (length bs) timestamp (compute_checksum bs)
            saved.snapshot.header_at) in
      (s', e, k, i, held)
    where
      foreign :
          (f : ℕ → ℕ) (a b c d : ℕ)
          → bytes f 0 40 ≡ build_header a b c d
          → mem_eq 4 (bytes f 0 12) StableKv.magic ≡ false
      foreign f a b c d e =
          unfold build_header mem_eq in ap (λ l. mem_eq 4 (take 12 l) StableKv.magic) e
