-- ===== src/Btree/Scan.antt =====
-- The prefix scan of lib/ic0/stable_btree.c (`stbt_scan_start`, `stbt_scan_next`,
-- `stbt_scan_stop`, `stbt_scan_collect`).
-- `none` is a trap, an access outside a buffer, which C leaves undefined, or, in `scan_leaves`, a
-- chain of more leaves than its fuel.
use idris2_ouc.Base.{
  ℕ, zero, suc, ◌+◌, List, [], ◌∷◌, ◌++◌, Bool, true, false, Option, none, some, ◌>>=◌, ltb, leb,
  ◌==◌, if◌then◌else◌, length, take, drop, get_elem?, not, ◌&&◌, ◌||◌,
}
use idris2_ouc.Word.{u32}
use idris2_ouc.Word.Bytes.{write_u32}
use idris2_ouc.Stable.{StableApi}
use idris2_ouc.Btree.{
  Tree, below, same, above, u16, half_word, child_at, two_bytes, stbt_key_cmp, stbt_read_page,
  stbt_init_if_needed, descend, levels,
}

-- `scan_leaf_page`, `scan_leaf_offset`, `scan_prefix`, `scan_prefix_len` and `scan_active`.
pub record Scan : Type 0 where
  pub leaf_page : ℕ
  pub leaf_offset : ℕ
  pub prefix : List ℕ
  pub prefix_len : ℕ
  pub active : Bool

-- The loop of `stbt_has_prefix` with `n` rounds left.
unfoldable pub has_prefix_loop : ℕ → List ℕ → List ℕ → Option Bool
has_prefix_loop zero key prefix = some true
has_prefix_loop (suc n) (x ∷ key) (y ∷ prefix) =
    let more = has_prefix_loop n key prefix in if x == y then more else some false
has_prefix_loop (suc n) key prefix = none

unfoldable pub stbt_has_prefix : List ℕ → ℕ → List ℕ → ℕ → Option Bool
stbt_has_prefix key key_len prefix prefix_len =
    if ltb key_len prefix_len then some false else has_prefix_loop prefix_len key prefix

-- How the loop of `stbt_scan_start` over the entries of a leaf ends: at the offset of a match, at a
-- key behind the prefix, or after the last entry.
pub data Seek : Type 0 where
  match : ℕ → Seek
  passed ended : Seek

unfoldable pub seek_loop : List ℕ → List ℕ → ℕ → ℕ → ℕ → Option Seek
seek_loop page prefix p_len zero offset = some ended
seek_loop page prefix p_len (suc n) offset = do
  key_len ← half_word page offset
  has ← stbt_has_prefix (drop (offset + 2) page) key_len prefix p_len
  if has then some (match offset) else (do
    cmp ← stbt_key_cmp (drop (offset + 2) page) key_len prefix p_len
    elim cmp [
      | above ↦ some passed
      | same ↦ do
        val_len ← half_word page (offset + 2 + key_len)
        seek_loop page prefix p_len n (u16 (offset + (2 + key_len + 2 + val_len)))
      | below ↦ do
        val_len ← half_word page (offset + 2 + key_len)
        seek_loop page prefix p_len n (u16 (offset + (2 + key_len + 2 + val_len)))
    ])

-- The second loop of `stbt_scan_next`, with at most `n` entries left: the index of the entry at
-- `offset`.
unfoldable pub index_loop : List ℕ → ℕ → ℕ → ℕ → ℕ → Option ℕ
index_loop page offset zero temp_offset entry_idx = some entry_idx
index_loop page offset (suc n) temp_offset entry_idx =
    if ltb temp_offset offset
    then (do
      k_len ← half_word page temp_offset
      v_len ← half_word page (temp_offset + 2 + k_len)
      index_loop page offset n (u16 (temp_offset + (2 + k_len + 2 + v_len))) (entry_idx + 1))
    else some entry_idx

-- What `stbt_scan_next` answers: -1, 0, or 1 with the length of the key, the bytes of it that the
-- buffer takes, and the same for the value.
pub data Next : Type 0 where
  failed finished : Next
  entry : ℕ → List ℕ → ℕ → List ℕ → Next

-- `memcpy` of `n` bytes from an offset of the page.
unfoldable pub copy_out : ℕ → ℕ → List ℕ → Option (List ℕ)
copy_out o n page = if leb (o + n) (length page) then some (take n (drop o page)) else none

unfoldable pub at_most : ℕ → ℕ → ℕ
at_most n max = if ltb n max then n else max

-- The entry at the offset of the scan, in the leaf with `count` entries that was read. `none` inside:
-- the scan goes on in the next leaf.
unfoldable pub scan_entry : List ℕ → ℕ → ℕ → ℕ → ℕ → Scan → Option (Option (Next × Scan))
scan_entry page count entry_idx max_k max_v s =
    if not (ltb s.leaf_offset 4092 && ltb entry_idx count) then some none else (do
      let offset = s.leaf_offset
      key_len ← half_word page offset
      if key_len == 0 || ltb 256 key_len then some none else (do
        has ← stbt_has_prefix (drop (offset + 2) page) key_len s.prefix s.prefix_len
        if not has then some (some (finished, record s { active = false })) else (do
          val_len ← half_word page (offset + 2 + key_len)
          key ← copy_out (offset + 2) (at_most key_len max_k) page
          val ← copy_out (offset + 4 + key_len) (at_most val_len max_v) page
          some (
              some (
                entry key_len key val_len val,
                record s { leaf_offset = u16 (offset + (2 + key_len + 2 + val_len)) },
              )))))

unfoldable pub stbt_scan_stop : Scan → Scan
stbt_scan_stop s = record s { leaf_page = 0; leaf_offset = 0; active = false }

module _ (api : StableApi) where
  open api use {Mem}

  -- The part of `stbt_scan_start` at the leaf. `none` inside is -1, the flag tells 1 from 0.
  unfoldable pub scan_start_at : List ℕ → ℕ → ℕ → Mem → Scan → Option (Option Bool × Scan)
  scan_start_at prefix p_len page_num m s = do
    page ← stbt_read_page api page_num m
    kind ← get_elem? page 0
    if not (kind == 1) then some (none, s) else (do
      count ← half_word page 1
      seek ← seek_loop page prefix p_len count 11
      elim seek [
        | match offset ↦
            some (some true, record s { leaf_page = page_num; leaf_offset = offset; active = true })
        | passed ↦ some (some false, record s { active = false })
        | ended ↦ do
          next_leaf ← child_at page 3
          if next_leaf == 0
              then some (some false, record s { active = false })
              else some
                  (some true, record s { leaf_page = next_leaf; leaf_offset = 11; active = true })
      ])

  unfoldable pub stbt_scan_start :
      List ℕ → Tree Mem → Scan → Option (Option Bool × (Tree Mem × Scan))
  stbt_scan_start prefix t0 s0 = do
    t ← stbt_init_if_needed api t0
    let p_len = u16 (length prefix)
    if ltb 256 p_len then some (none, (t, s0)) else (do
      let s = record s0 { prefix = take p_len prefix; prefix_len = p_len }
      leaf ← descend api true prefix p_len (levels api t) t.root_page t.mem
      elim leaf [
        | none ↦ some (none, (t, s))
        | some page_num ↦ do
          (out, s') ← scan_start_at prefix p_len page_num t.mem s
          some (out, (t, s'))
      ])

  -- The loop of `stbt_scan_next` over the leaves.
  unfoldable pub scan_leaves : ℕ → ℕ → ℕ → Mem → Scan → Option (Next × Scan)
  scan_leaves zero max_k max_v m s = none
  scan_leaves (suc fuel) max_k max_v m s =
      if s.leaf_page == 0 then some (finished, record s { active = false }) else (do
        page ← stbt_read_page api s.leaf_page m
        kind ← get_elem? page 0
        if not (kind == 1) then some (failed, record s { active = false }) else (do
          count ← half_word page 1
          entry_idx ← index_loop page s.leaf_offset count 11 0
          here ← scan_entry page count entry_idx max_k max_v s
          elim here [
            | some out ↦ some out
            | none ↦ do
              next_leaf ← child_at page 3
              let s' = record s { leaf_page = next_leaf; leaf_offset = 11 }
              if next_leaf == 0
                  then some (finished, record s' { active = false })
                  else scan_leaves fuel max_k max_v m s'
          ]))

  unfoldable pub stbt_scan_next : ℕ → ℕ → ℕ → Mem → Scan → Option (Next × Scan)
  stbt_scan_next fuel max_key_len max_val_len m s =
      if not s.active
      then some (finished, s)
      else scan_leaves fuel (u16 max_key_len) (u16 max_val_len) m s

  -- The loop of `stbt_scan_collect` with `n` rounds left: the entries it writes, how many, and the
  -- scan. `val_tmp` has 1024 bytes.
  unfoldable pub collect_loop : ℕ → ℕ → ℕ → ℕ → Mem → Scan → Option (List ℕ × (ℕ × Scan))
  collect_loop fuel zero buf_max offset m s = some ([], (0, s))
  collect_loop fuel (suc n) buf_max offset m s = do
    (result, s') ← stbt_scan_next fuel 256 1024 m s
    elim result [
      | failed ↦ some ([], (0, s'))
      | finished ↦ some ([], (0, s'))
      | entry key_len key val_len val ↦
          let next = u32 (offset + (2 + key_len + 2 + val_len)) in
          if ltb buf_max next then some ([], (0, s')) else if ltb 1024 val_len then none else (do
            (bytes, (count, s'')) ← collect_loop fuel n buf_max next m s'
            some (
              two_bytes key_len
                  ++ (take key_len key ++ (two_bytes val_len ++ (take val_len val ++ bytes))),
              (count + 1, s''),
            ))
    ]

  -- `none` inside is -1. With a result, the count and the bytes written at the start of the buffer,
  -- which are none when no key matches.
  unfoldable pub stbt_scan_collect :
      ℕ → List ℕ → ℕ → ℕ → Tree Mem → Scan → Option (Option (ℕ × List ℕ) × (Tree Mem × Scan))
  stbt_scan_collect fuel prefix buf_size max_results t0 s0 = do
    (started, (t, s)) ← stbt_scan_start prefix t0 s0
    elim started [
      | none ↦ some (none, (t, s))
      | some false ↦ some (some (0, []), (t, s))
      | some true ↦ do
        (bytes, (count, s')) ← collect_loop fuel (u32 max_results) (u32 buf_size) 4 t.mem s
        if ltb (u32 buf_size) 4
            then none
            else some (some (count, write_u32 count ++ bytes), (t, stbt_scan_stop s'))
    ]
