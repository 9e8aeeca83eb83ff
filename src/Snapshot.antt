-- ===== src/Snapshot.antt =====
-- lib/ic0/sqlite_stable.c: the SQLite database as a snapshot in stable memory, written before an
-- upgrade and read after it. A header of 40 bytes at offset 0 and the serialization behind it.
-- Debug output is left out. A result is `none` where the system traps.
pub mod Restore
pub mod Accept
mod Tests
use idris2_ouc.Base.{
  ℕ, zero, suc, ◌+◌, ◌-◌, ◌*◌, ◌/◌, ◌<◌, List, [], ◌∷◌, ◌++◌, Bool, true, false, Option, none, some,
  ◌>>=◌, ltb, ◌==◌, if◌then◌else◌, length, take, drop, not,
}
use idris2_ouc.Word.{u32, u64}
use idris2_ouc.Word.Bytes.{write_u32, read_u32, write_u64, read_u64}
use idris2_ouc.Stable.{StableApi}
use idris2_ouc.StableKv.{mem_eq}
use idris2_ouc.SqlBridge.Api.{SqliteApi}
use idris2_ouc.SqlBridge.{Bridge, sql_is_open, sql_serialize_size, sql_serialize, sql_deserialize}

-- "IDXRSQL" and its NUL.
abbrev pub magic : List ℕ
magic = b'I' ∷ b'D' ∷ b'X' ∷ b'R' ∷ b'S' ∷ b'Q' ∷ b'L' ∷ 0 ∷ []

abbrev pub version : ℕ
version = 1

abbrev pub header_size : ℕ
header_size = 40

abbrev pub max_size : ℕ
max_size = 104857600

-- `for (i = 0; i < len; i++) sum += data[i]`.
unfoldable pub checksum_loop : List ℕ → ℕ → ℕ
checksum_loop [] sum = sum
checksum_loop (x ∷ xs) sum = checksum_loop xs (u64 (sum + x))

unfoldable pub compute_checksum : List ℕ → ℕ
compute_checksum bytes = checksum_loop bytes 0

-- The header that `sqlite_stable_save` builds.
unfoldable pub build_header : ℕ → ℕ → ℕ → ℕ → List ℕ
build_header schema size timestamp checksum =
    magic
    ++ (write_u32 version
        ++ (write_u32 schema ++ (write_u64 size ++ (write_u64 timestamp ++ write_u64 checksum))))

module _ (st : StableApi) (sq : SqliteApi) where
  open st use {Mem, pages, grow, read, write}

  -- The bridge, `g_loaded_schema_version`, and the stable memory.
  pub record Store : Type 0 where
    pub bridge : Bridge sq
    pub loaded_schema : ℕ
    pub mem : Mem

  unfoldable pub ensure_stable_capacity : ℕ → Mem → Mem
  ensure_stable_capacity needed_bytes m =
      let current_pages = pages m in
      let needed_pages = u64 (needed_bytes + 65535) / 65536 in
      if ltb (u64 (current_pages * 65536)) needed_bytes
      then grow (u64 (needed_pages + 18446744073709551616 - current_pages)) m
      else m

  -- The writes of `sqlite_stable_save`, for a serialization `bs`.
  unfoldable pub save_bytes : ℕ → ℕ → List ℕ → Store → Option (ℕ × Store)
  save_bytes schema timestamp bs s = do
    let header = build_header schema (length bs) timestamp (compute_checksum bs)
    m1 ← write 0 header (ensure_stable_capacity (u64 (header_size + length bs)) s.mem)
    m2 ← write header_size bs m1
    some (0, record s { mem = m2 })

  -- The memory is grown before the database is serialized, also where that fails.
  unfoldable pub sqlite_stable_save : ℕ → ℕ → Store → Option (ℕ × Store)
  sqlite_stable_save schema timestamp s =
      if sql_is_open sq s.bridge
      then elim (sql_serialize_size sq s.bridge) [
        | none ↦ some (2, s)
        | some db_size ↦
            if ltb max_size db_size then some (3, s) else elim (sql_serialize sq db_size s.bridge) [
              | none ↦
                  some (
                    4,
                    record s { mem = ensure_stable_capacity (u64 (header_size + db_size)) s.mem },
                  )
              | some (copied, bs) ↦
                  if copied == db_size
                  then save_bytes schema timestamp bs s
                  else some (
                    4,
                    record s { mem = ensure_stable_capacity (u64 (header_size + db_size)) s.mem },
                  )
            ]
      ]
      else some (1, s)

  -- The checks of `sqlite_stable_load` behind the header: checksum and deserialization.
  unfoldable pub load_bytes : List ℕ → List ℕ → Store → ℕ × Store
  load_bytes header bs s =
      if compute_checksum bs == read_u64 (drop 32 header)
      then (let (rc, b) = sql_deserialize sq bs s.bridge in
          if rc == 0
          then (0, record s { bridge = b; loaded_schema = read_u32 (drop 12 header) })
          else (3, record s { bridge = b }))
      else (2, s)

  -- The code that `sqlite_stable_load` returns. `*out_schema_version` gets what `loaded_schema` gets.
  unfoldable pub sqlite_stable_load : Store → Option (ℕ × Store)
  sqlite_stable_load s = if pages s.mem == 0 then some (1, s) else do
    header ← read 0 header_size s.mem
    let snapshot_size = read_u64 (drop 16 header)
    if not (mem_eq 8 header magic)
        then some (1, s)
        else if not (read_u32 (drop 8 header) == version)
        then some (1, s)
        else if ltb max_size snapshot_size
        then some (1, s)
        else (do bs ← read header_size snapshot_size s.mem; some (load_bytes header bs s))

  unfoldable pub sqlite_stable_has_snapshot : Store → Option Bool
  sqlite_stable_has_snapshot s =
      if pages s.mem == 0 then some false else do m ← read 0 8 s.mem; some (mem_eq 8 m magic)

  -- Schema version, size and timestamp; the inner `none` is the code 1.
  unfoldable pub sqlite_stable_get_info : Store → Option (Option (ℕ × ℕ × ℕ))
  sqlite_stable_get_info s = do
    has ← sqlite_stable_has_snapshot s
    if has
        then (do
          header ← read 0 header_size s.mem
          some (
              some
                (read_u32 (drop 12 header), read_u64 (drop 16 header), read_u64 (drop 24 header))))
        else some none

  unfoldable pub sqlite_stable_clear : Store → Option Store
  sqlite_stable_clear s =
      if pages s.mem == 0
      then some s
      else do m ← write 0 (0 ∷ 0 ∷ 0 ∷ 0 ∷ 0 ∷ 0 ∷ 0 ∷ 0 ∷ []) s.mem; some (record s { mem = m })
