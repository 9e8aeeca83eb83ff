-- ===== src/StableKv.antt =====
-- The key-value storage of lib/ic0/ic0_stubs.c (`stkv_*`): a header of 12 bytes and a log of
-- entries `[key_len:4][key][val_len:4][val]` in stable memory, searched from its start.
-- A pointer with its length is the list of the bytes. A result is `none` where the system traps.
-- Debug output is left out.
pub mod Log
pub mod Layout
pub mod Search
pub mod Append
pub mod Refine
pub mod Put
pub mod Promise
mod Tests
use idris2_ouc.Base.{
  ℕ, zero, suc, ◌+◌, ◌-◌, ◌*◌, ◌/◌, ◌<◌, min, List, [], ◌∷◌, ◌++◌, Bool, true, false, ◌&&◌, Option,
  none, some, ◌>>=◌, ltb, leb, ◌==◌, if◌then◌else◌, length, take, drop, get_or,
}
use idris2_ouc.Word.{u32}
use idris2_ouc.Word.Bytes.{write_u32, read_u32}
use idris2_ouc.Stable.{StableApi}

abbrev pub data_start : ℕ
data_start = 12

abbrev pub max_key : ℕ
max_key = 256

-- 'S', 'T', 'K', 'V'.
abbrev pub magic : List ℕ
magic = b'S' ∷ b'T' ∷ b'K' ∷ b'V' ∷ []

-- `stkv_count`, `stkv_next_free`, `stkv_initialized`, and the stable memory.
pub record Kv (M : Type 0) : Type 0 where
  pub count : ℕ
  pub next_free : ℕ
  pub initialized : Bool
  pub mem : M

-- `for (i = 0; i < len; i++) if (a[i] != b[i]) return 0; return 1;` with `len` rounds left.
unfoldable pub mem_eq : ℕ → List ℕ → List ℕ → Bool
mem_eq zero a b = true
mem_eq (suc len) (x ∷ a) (y ∷ b) = x == y && mem_eq len a b
mem_eq (suc len) a b = false

-- The header that a fresh storage gets: no entry, next free byte 12.
unfoldable pub empty_header : List ℕ
empty_header = magic ++ (0 ∷ 0 ∷ 0 ∷ 0 ∷ 12 ∷ 0 ∷ 0 ∷ 0 ∷ [])

unfoldable pub header : ℕ → ℕ → List ℕ
header count next_free = magic ++ (write_u32 count ++ write_u32 next_free)

-- The bytes that `stkv_put` appends, in four writes one after the other.
unfoldable pub entry_size : ℕ → ℕ → ℕ
entry_size k_len v_len = u32 (4 + k_len + 4 + v_len)

module _ (api : StableApi) where
  open api use {Mem, pages, grow, read, write}

  unfoldable pub ensure_capacity : ℕ → Mem → Mem
  ensure_capacity needed_bytes m =
      let current_pages = pages m in
      let needed_pages = u32 (needed_bytes + 65535) / 65536 in
      if ltb (u32 (current_pages * 65536)) needed_bytes
      then grow (u32 (needed_pages + 4294967296 - current_pages)) m
      else m

  unfoldable pub flush_header : Kv Mem → Option (Kv Mem)
  flush_header s = do m ← write 0 (header s.count s.next_free) s.mem; some (record s { mem = m })

  -- Both ways to start afresh write the empty header.
  unfoldable pub init_fresh : Mem → Option (Kv Mem)
  init_fresh m = do
    m' ← write 0 empty_header m
    some (record { count = 0; next_free = data_start; initialized = true; mem = m' })

  unfoldable pub init_if_needed : Kv Mem → Option (Kv Mem)
  init_if_needed s =
      if s.initialized then some s else if pages s.mem == 0 then init_fresh (grow 1 s.mem) else do
        h ← read 0 12 s.mem
        if mem_eq 4 h magic
            then some (record s {
              count = read_u32 (drop 4 h);
              next_free = read_u32 (drop 8 h);
              initialized = true;
            })
            else init_fresh s.mem

  -- The search loop that `stkv_put` and `stkv_get` have in common, with `n` rounds left at `offset`:
  -- the offset of the first entry with this key, or `none`.
  unfoldable pub find_entry : List ℕ → ℕ → ℕ → ℕ → Mem → Option (Option ℕ)
  find_entry key next_free zero offset m = some none
  find_entry key next_free (suc n) offset m =
      let k_len = u32 (length key) in
      let skip : ℕ → Option (Option ℕ) = λ stored_key_len. (do
        vb ← read (u32 (offset + 4 + stored_key_len)) 4 m
        find_entry key next_free n (u32 (offset + 4 + stored_key_len + 4 + read_u32 vb)) m) in
      if ltb offset next_free
      then (do
        kb ← read offset 4 m
        let stored_key_len = read_u32 kb
        if stored_key_len == k_len && leb stored_key_len max_key
            then (do
              stored ← read (u32 (offset + 4)) stored_key_len m
              if mem_eq k_len key stored then some (some offset) else skip stored_key_len)
            else skip stored_key_len)
      else some none

  -- The part of `stkv_put` behind its loop.
  unfoldable pub append_entry : List ℕ → List ℕ → Kv Mem → Option (Kv Mem)
  append_entry key val s = do
    let k_len = u32 (length key)
    let v_len = u32 (length val)
    let size = entry_size k_len v_len
    let m0 = ensure_capacity (u32 (s.next_free + size)) s.mem
    m1 ← write s.next_free (write_u32 k_len) m0
    m2 ← write (u32 (s.next_free + 4)) (take k_len key) m1
    m3 ← write (u32 (s.next_free + 4 + k_len)) (write_u32 v_len) m2
    m4 ← write (u32 (s.next_free + 4 + k_len + 4)) (take v_len val) m3
    flush_header
        (record s { next_free = u32 (s.next_free + size); count = u32 (s.count + 1); mem = m4 })

  -- `stkv_put`. It returns 0 whenever it returns.
  unfoldable pub put : List ℕ → List ℕ → Kv Mem → Option (ℕ × Kv Mem)
  put key val s0 = do
    let k_len = u32 (length key)
    let v_len = u32 (length val)
    s ← init_if_needed s0
    hit ← find_entry key s.next_free s.count data_start s.mem
    elim hit [
      | none ↦ append_entry key val s >>= λ s'. some (0, s')
      | some offset ↦ do
        vb ← read (u32 (offset + 4 + k_len)) 4 s.mem
        if read_u32 vb == v_len
            then (do
              m ← write (u32 (offset + 4 + k_len + 4)) (take v_len val) s.mem
              some (0, record s { mem = m }))
            else append_entry key val s >>= λ s'. some (0, s')
    ]

  -- `stkv_get`: the length of the stored value and the bytes that are copied out, at most
  -- `max_val_len`. The inner `none` is -1.
  unfoldable pub get : List ℕ → ℕ → Kv Mem → Option (Option (ℕ × List ℕ) × Kv Mem)
  get key max_val_len s0 = do
    let k_len = u32 (length key)
    let max_len = u32 max_val_len
    s ← init_if_needed s0
    hit ← find_entry key s.next_free s.count data_start s.mem
    elim hit [
      | none ↦ some (none, s)
      | some offset ↦ do
        vb ← read (u32 (offset + 4 + k_len)) 4 s.mem
        let stored_val_len = read_u32 vb
        let copy_len = if ltb stored_val_len max_len then stored_val_len else max_len
        out ← read (u32 (offset + 4 + k_len + 4)) copy_len s.mem
        some (some (stored_val_len, out), s)
    ]

  -- `stkv_delete` does nothing and returns 0.
  unfoldable pub delete : List ℕ → Kv Mem → Option (ℕ × Kv Mem)
  delete key s = some (0, s)

  unfoldable pub count_entries : Kv Mem → Option (ℕ × Kv Mem)
  count_entries s0 = do s ← init_if_needed s0; some (s.count, s)

  unfoldable pub clear : Kv Mem → Option (Kv Mem)
  clear s = flush_header (record s { count = 0; next_free = data_start })
