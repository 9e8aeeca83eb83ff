-- ===== src/Snapshot/Restore.antt =====
-- A snapshot that was saved before an upgrade is loaded after it.
use idris2_ouc.Base.{
  ℕ, ◌+◌, ◌-◌, ◌*◌, ◌/◌, ◌≤◌, ◌<◌, ◌^◌, ◌≡◌, ◌∙◌, sym, refl, ap, List, [], ◌∷◌, ◌++◌, true, some,
  length, arith, drop, dec_lt,
}
use idris2_ouc.Word.{u64, IsU32, IsU64}
use idris2_ouc.Word.Bytes.{
  write_u32, read_u32, read_u32-write_u32, write_u64, read_u64, read_u64-write_u64,
  read_u64-write_u64_end,
}
use idris2_ouc.Stable.{StableApi}
use idris2_ouc.Stable.Span.{bytes}
use idris2_ouc.Stable.Growth.{GrowsTo32, HasRoom, stay-HasRoom, grow-HasRoom}
use idris2_ouc.Stable.Writes.{write_then}
use idris2_ouc.StableKv.{mem_eq}
use idris2_ouc.SqlBridge.Api.{SqliteApi}
use idris2_ouc.SqlBridge.{Bridge, sql_deserialize}
use idris2_ouc.SqlBridge.Content.{
  HasContent, sql_is_open-HasContent, sql_serialize_size-HasContent, sql_serialize-HasContent,
  deserialize-HasContent,
}
use idris2_ouc.Snapshot.{
  Store, magic, checksum_loop, compute_checksum, build_header, save_bytes, ensure_stable_capacity,
  sqlite_stable_save, sqlite_stable_load, load_bytes, sqlite_stable_has_snapshot,
  sqlite_stable_get_info,
}

checksum_loop-lt : (xs : List ℕ) (sum : ℕ) → sum < 2 ^ 64 → checksum_loop xs sum < 2 ^ 64
unfolding checksum_loop
checksum_loop-lt [] sum h = h
checksum_loop-lt (x ∷ xs) sum h = checksum_loop-lt xs (u64 (sum + x)) (omega arith)

pub compute_checksum-lt : (xs : List ℕ) → compute_checksum xs < 2 ^ 64
unfolding compute_checksum
compute_checksum-lt xs = checksum_loop-lt xs 0 (omega arith)

pub length-build_header : (a b c d : ℕ) → length (build_header a b c d) ≡ 40
unfolding build_header write_u32 write_u64
length-build_header a b c d = refl

-- What the fields of a header are read as.
pub record Reads (h : List ℕ) (schema size timestamp checksum : ℕ) : Type 0 where
  pub magic_ok : mem_eq 8 h magic ≡ true
  pub version_ok : read_u32 (drop 8 h) ≡ 1
  pub schema_ok : read_u32 (drop 12 h) ≡ schema
  pub size_ok : read_u64 (drop 16 h) ≡ size
  pub time_ok : read_u64 (drop 24 h) ≡ timestamp
  pub checksum_ok : read_u64 (drop 32 h) ≡ checksum

pub build_header-Reads :
    (schema size timestamp checksum : ℕ)
    → IsU32 schema
    → IsU64 size
    → IsU64 timestamp
    → IsU64 checksum
    → Reads (build_header schema size timestamp checksum) schema size timestamp checksum
unfolding build_header mem_eq write_u32 write_u64
build_header-Reads a b c d ha hb hc hd = record {
  magic_ok = refl;
  version_ok =
      read_u32-write_u32 1 (write_u32 a ++ (write_u64 b ++ (write_u64 c ++ write_u64 d)))
        (omega arith);
  schema_ok = read_u32-write_u32 a (write_u64 b ++ (write_u64 c ++ write_u64 d)) ha;
  size_ok = read_u64-write_u64 b (write_u64 c ++ write_u64 d) hb;
  time_ok = read_u64-write_u64 c (write_u64 d) hc;
  checksum_ok = read_u64-write_u64_end d hd;
}

module _ (st : StableApi) (sq : SqliteApi) where
  open st use {Mem, pages, byte, grow, read, read_in, write}

  -- The snapshot of the serialization `bs` lies in the memory.
  pub record HasSnapshot (m : Mem) (schema timestamp : ℕ) (bs : List ℕ) : Type 0 where
    pub header_at :
        bytes (byte m) 0 40 ≡ build_header schema (length bs) timestamp (compute_checksum bs)
    pub bytes_at : bytes (byte m) 40 (length bs) ≡ bs
    pub room : 40 + length bs ≤ pages m * 65536
    pub bounded : length bs ≤ 104857600
    pub schema_word : IsU32 schema
    pub time_word : IsU64 timestamp

  HasSnapshot-Reads :
      {m : Mem} {schema timestamp : ℕ} {bs : List ℕ}
      → HasSnapshot m schema timestamp bs
      → Reads (bytes (byte m) 0 40) schema (length bs) timestamp (compute_checksum bs)
  HasSnapshot-Reads {schema} {timestamp} {bs} h = rw h.header_at (
      build_header-Reads schema (length bs) timestamp (compute_checksum bs) h.schema_word
        (omega (arith, h.bounded)) h.time_word (compute_checksum-lt bs))

  ensure_stable_capacity-HasRoom :
      (needed : ℕ) (m : Mem)
      → GrowsTo32 st
      → needed ≤ 65535 * 65536
      → pages m < 65536
      → HasRoom st needed m (ensure_stable_capacity st sq needed m)
  unfolding ensure_stable_capacity
  ensure_stable_capacity-HasRoom needed m grows h small = elim (dec_lt (pages m * 65536) needed) [
    | no le ↦ rw (stays (omega arith)) (stay-HasRoom st needed m (omega arith) small)
    | yes more ↦ rw (grown more) (grow-HasRoom st needed _ m grows h more (omega arith))
  ]
    where
      stays : needed ≤ pages m * 65536 → ensure_stable_capacity st sq needed m ≡ m
      stays le = ground arith

      grown :
          pages m * 65536 < needed
          → ensure_stable_capacity st sq needed m
            ≡ grow (u64 (u64 (needed + 65535) / 65536 + 18446744073709551616 - pages m)) m
      grown more = ground arith

  -- What a save that succeeds has done.
  pub record Saved (s : Store st sq) (schema timestamp : ℕ) (bs : List ℕ) (s' : Store st sq)
      : Type 0 where
    pub snapshot : HasSnapshot s'.mem schema timestamp bs
    pub small : pages s'.mem < 65536
    pub same_bridge : s'.bridge ≡ s.bridge

  save_bytes-Saved :
      (schema timestamp : ℕ) (bs : List ℕ) (s : Store st sq)
      → GrowsTo32 st
      → pages s.mem < 65536
      → length bs ≤ 104857600
      → IsU32 schema
      → IsU64 timestamp
      → (s' : Store st sq) × (save_bytes st sq schema timestamp bs s ≡ some (0, s'))
        × Saved s schema timestamp bs s'
  save_bytes-Saved schema timestamp bs s grows small bound hs ht =
      write_then st 0 head m0 (omega (arith, r.room, head_len)) λ m1 w1.
        write_then st 40 bs m1 (omega (arith, r.room, w1.same_pages)) λ m2 w2. (
          record s { mem = m2 },
          unfold save_bytes in ground (arith, size, w1.done, w2.done),
          record {
            snapshot = record {
              header_at =
                  w2.kept 0 40 (omega arith)
                  ∙ ap (λ n. bytes (byte m1) 0 n) (sym head_len)
                  ∙ w1.stored;
              bytes_at = w2.stored;
              room = omega (arith, r.room, w1.same_pages, w2.same_pages);
              bounded = bound;
              schema_word = hs;
              time_word = ht;
            };
            small = omega (arith, r.small, w1.same_pages, w2.same_pages);
            same_bridge = refl;
          },
        )
    where
      head : List ℕ
      head = build_header schema (length bs) timestamp (compute_checksum bs)

      head_len : length head ≡ 40
      head_len = length-build_header schema (length bs) timestamp (compute_checksum bs)

      m0 : Mem
      m0 = ensure_stable_capacity st sq (40 + length bs) s.mem

      r : HasRoom st (40 + length bs) s.mem m0
      r = ensure_stable_capacity-HasRoom (40 + length bs) s.mem grows (omega arith) small

      size : u64 (40 + length bs) ≡ 40 + length bs
      size = omega arith

  save_calls :
      (schema timestamp : ℕ) (bs : List ℕ) (s : Store st sq)
      → HasContent sq s.bridge bs
      → length bs ≤ 104857600
      → sqlite_stable_save st sq schema timestamp s ≡ save_bytes st sq schema timestamp bs s
  unfolding sqlite_stable_save
  save_calls schema timestamp bs s h bound = ground (
    arith,
    sql_is_open-HasContent sq s.bridge bs h,
    sql_serialize_size-HasContent sq s.bridge bs h,
    sql_serialize-HasContent sq s.bridge bs h,
  )

  -- An open database whose serialization `bs` has at most 100 MB is saved: the code is 0, and the
  -- memory holds the snapshot of `bs`. (A memory below 2^16 pages, a system that grants pages.)
  pub save-Saved :
      (schema timestamp : ℕ) (bs : List ℕ) (s : Store st sq)
      → GrowsTo32 st
      → pages s.mem < 65536
      → HasContent sq s.bridge bs
      → length bs ≤ 104857600
      → IsU32 schema
      → IsU64 timestamp
      → (s' : Store st sq) × (sqlite_stable_save st sq schema timestamp s ≡ some (0, s'))
        × Saved s schema timestamp bs s'
  save-Saved schema timestamp bs s grows small h bound hs ht =
      let (s', e, saved) = save_bytes-Saved schema timestamp bs s grows small bound hs ht in
      (s', save_calls schema timestamp bs s h bound ∙ e, saved)

  -- A snapshot in memory is loaded, if SQLite accepts its bytes.
  pub load-HasSnapshot :
      (schema timestamp : ℕ) (bs : List ℕ) (t : Store st sq)
      → HasSnapshot t.mem schema timestamp bs
      → (sql_deserialize sq bs t.bridge).0 ≡ 0
      → sqlite_stable_load st sq t
        ≡ some (0, record t { bridge = (sql_deserialize sq bs t.bridge).1; loaded_schema = schema })
  unfolding sqlite_stable_load load_bytes
  load-HasSnapshot schema timestamp bs t h accepts =
      let r = HasSnapshot-Reads h in
      ground (
        arith,
        read_in 0 40 t.mem (omega (arith, h.room)),
        read_in 40 (length bs) t.mem h.room,
        h.bytes_at,
        h.room,
        h.bounded,
        r.magic_ok,
        r.version_ok,
        r.size_ok,
        r.schema_ok,
        r.checksum_ok,
        accepts,
      )

  -- An upgrade loses nothing of the database: what `sqlite_stable_save` saves of a database with the
  -- serialization `bs`, `sqlite_stable_load` restores in a canister whose variables are anything and
  -- whose stable memory was kept. Both return 0, the restored database has the serialization `bs`, and
  -- the schema version is the saved one. (At most 100 MB,
  -- a memory below 2^16 pages, a system that grants pages, and SQLite accepts `bs`.)
  pub save-load :
      (schema timestamp : ℕ) (bs : List ℕ) (s : Store st sq) (fresh : Bridge sq) (old : ℕ)
      → GrowsTo32 st
      → pages s.mem < 65536
      → HasContent sq s.bridge bs
      → length bs ≤ 104857600
      → IsU32 schema
      → IsU64 timestamp
      → (sql_deserialize sq bs fresh).0 ≡ 0
      → (s' : Store st sq) × (sqlite_stable_save st sq schema timestamp s ≡ some (0, s'))
        × (t : Store st sq) × (sqlite_stable_load st sq
              (record s' { bridge = fresh; loaded_schema = old })
            ≡ some (0, t))
        × HasContent sq t.bridge bs
        × (t.loaded_schema ≡ schema)
  save-load schema timestamp bs s fresh old grows small h bound hs ht accepts =
      let (s', e, saved) = save-Saved schema timestamp bs s grows small h bound hs ht in
      (
        s',
        e,
        record s' { bridge = (sql_deserialize sq bs fresh).1; loaded_schema = schema },
        load-HasSnapshot schema timestamp bs (record s' { bridge = fresh; loaded_schema = old })
            saved.snapshot accepts,
        deserialize-HasContent sq bs fresh accepts,
        refl,
      )

  -- With a snapshot in memory, `sqlite_stable_has_snapshot` says so and `sqlite_stable_get_info` gives
  -- its schema version, size and timestamp.
  pub get_info-HasSnapshot :
      (schema timestamp : ℕ) (bs : List ℕ) (t : Store st sq)
      → HasSnapshot t.mem schema timestamp bs
      → (sqlite_stable_has_snapshot st sq t ≡ some true)
        × (sqlite_stable_get_info st sq t ≡ some (some (schema, length bs, timestamp)))
  unfolding sqlite_stable_has_snapshot sqlite_stable_get_info
  get_info-HasSnapshot schema timestamp bs t h =
      let r = HasSnapshot-Reads h in
      let m : mem_eq 8 (bytes (byte t.mem) 0 8) magic ≡ true = unfold mem_eq in r.magic_ok in
      ground (
        arith,
        read_in 0 8 t.mem (omega (arith, h.room)),
        read_in 0 40 t.mem (omega (arith, h.room)),
        h.room,
        m,
        r.version_ok,
        r.size_ok,
        r.schema_ok,
        r.time_ok,
      )
