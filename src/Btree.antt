-- ===== src/Btree.antt =====
-- The B+tree storage of lib/ic0/stable_btree.c (`stbt_*`) without its prefix scan: pages of 4096 bytes
-- in stable memory, found through a header on page 0. The code never splits a node.
-- A page is the list of its bytes, and the working buffer `stbt_page_buf` is the page that was read
-- last. `none` is a trap of the system or an access outside a buffer, which C leaves undefined.
pub mod Order
pub mod Empty
pub mod Entries
pub mod Insert
pub mod Insertion
pub mod Layout
pub mod Histories
pub mod Overwrite
pub mod Prefix
pub mod Puts
pub mod Promise
pub mod Places
pub mod Reads
pub mod Refine
pub mod Scan
pub mod Search
pub mod Seeking
pub mod Stepping
pub mod Collecting
pub mod Matches
pub mod First
pub mod FirstPut
mod Tests
use idris2_ouc.Base.{
  ℕ, zero, suc, ◌+◌, ◌-◌, ◌*◌, ◌%◌, ◌<◌, List, [], ◌∷◌, ◌++◌, Bool, true, false, Option, none, some,
  ◌>>=◌, ltb, leb, ◌==◌, if◌then◌else◌, bit_or, length, take, drop, replicate, get_elem?, not, ◌&&◌,
  ◌/◌, ◌||◌,
}
use idris2_ouc.Word.{u32}
use idris2_ouc.Word.Bytes.{write_u32, read_u32}
use idris2_ouc.Stable.{StableApi}

abbrev pub page_bytes : ℕ
page_bytes = 4096

-- 0x54425453.
abbrev pub tree_magic : ℕ
tree_magic = 1413633107

unfoldable pub u16 : ℕ → ℕ
u16 n = n % 65536

-- The fields of `stbt_header`, `stbt_initialized`, and the stable memory.
pub record Tree (M : Type 0) : Type 0 where
  pub magic : ℕ
  pub root_page : ℕ
  pub page_count : ℕ
  pub entry_count : ℕ
  pub height : ℕ
  pub initialized : Bool
  pub mem : M

pub data Cmp : Type 0 where
  below same above : Cmp

-- The loop of `stbt_key_cmp` with `n` rounds left, and what stands behind it.
unfoldable pub cmp_bytes : ℕ → List ℕ → List ℕ → Cmp → Option Cmp
cmp_bytes zero k1 k2 tail = some tail
cmp_bytes (suc n) (x ∷ k1) (y ∷ k2) tail =
    let more = cmp_bytes n k1 k2 tail in
    if ltb x y then some below else if ltb y x then some above else more
cmp_bytes (suc n) k1 k2 tail = none

unfoldable pub stbt_key_cmp : List ℕ → ℕ → List ℕ → ℕ → Option Cmp
stbt_key_cmp k1 len1 k2 len2 =
    cmp_bytes (if ltb len1 len2 then len1 else len2) k1 k2
      (if ltb len1 len2 then below else if ltb len2 len1 then above else same)

-- `page[o] | (page[o + 1] << 8)`.
unfoldable pub half_word : List ℕ → ℕ → Option ℕ
half_word page o = do a ← get_elem? page o; b ← get_elem? page (o + 1); some (bit_or a (b * 256))

-- `page[o] | (page[o + 1] << 8) | (page[o + 2] << 16) | (page[o + 3] << 24)`.
unfoldable pub child_at : List ℕ → ℕ → Option ℕ
child_at page o = if leb (o + 4) (length page) then some (read_u32 (drop o page)) else none

-- The loop of `stbt_leaf_find` with `n` entries left at `offset`.
unfoldable pub leaf_find_loop : List ℕ → List ℕ → ℕ → ℕ → ℕ → Option (Bool × ℕ)
leaf_find_loop page key key_len zero offset = some (false, offset)
leaf_find_loop page key key_len (suc n) offset = do
  entry_key_len ← half_word page offset
  cmp ← stbt_key_cmp key key_len (drop (offset + 2) page) entry_key_len
  elim cmp [
    | same ↦ some (true, offset)
    | below ↦ some (false, offset)
    | above ↦ do
      val_len ← half_word page (offset + 2 + entry_key_len)
      leaf_find_loop page key key_len n (u16 (offset + (2 + entry_key_len + 2 + val_len)))
  ]

-- `*found` and the offset.
unfoldable pub stbt_leaf_find : List ℕ → List ℕ → ℕ → Option (Bool × ℕ)
stbt_leaf_find page key key_len = do
  count ← half_word page 1
  leaf_find_loop page key key_len count 11

unfoldable pub used_space_loop : List ℕ → ℕ → ℕ → Option ℕ
used_space_loop page zero offset = some offset
used_space_loop page (suc n) offset = do
  key_len ← half_word page offset
  val_len ← half_word page (offset + 2 + key_len)
  used_space_loop page n (u16 (offset + (2 + key_len + 2 + val_len)))

unfoldable pub stbt_leaf_used_space : List ℕ → Option ℕ
stbt_leaf_used_space page = do count ← half_word page 1; used_space_loop page count 11

-- A copy of bytes into a page.
unfoldable pub copy_in : ℕ → List ℕ → List ℕ → Option (List ℕ)
copy_in pos bs page =
    if leb (pos + length bs) (length page)
    then some (take pos page ++ (bs ++ drop (pos + length bs) page))
    else none

unfoldable pub two_bytes : ℕ → List ℕ
two_bytes n = n % 256 ∷ n / 256 % 256 ∷ []

-- The writes of the new entry follow each other, so they are one.
unfoldable pub stbt_leaf_insert_at : ℕ → List ℕ → ℕ → List ℕ → ℕ → List ℕ → Option (List ℕ)
stbt_leaf_insert_at pos key key_len val val_len page = do
  count ← half_word page 1
  used ← stbt_leaf_used_space page
  let entry_size = u16 (2 + key_len + 2 + val_len)
  shifted ←
      if ltb pos used
      then copy_in (pos + entry_size) (take (used - pos) (drop pos page)) page
      else some page
  written ←
      copy_in pos
        (two_bytes key_len ++ (take key_len key ++ (two_bytes val_len ++ take val_len val))) shifted
  copy_in 1 (two_bytes (u16 (count + 1))) written

-- The loop of `stbt_internal_find_child` with `n` keys left; the index of the child is not used.
unfoldable pub find_child_loop : List ℕ → List ℕ → ℕ → ℕ → ℕ → ℕ → Option ℕ
find_child_loop page key key_len zero offset child = some child
find_child_loop page key key_len (suc n) offset child = do
  sep_key_len ← half_word page offset
  cmp ← stbt_key_cmp key key_len (drop (offset + 2) page) sep_key_len
  let next = u16 (offset + (2 + sep_key_len))
  elim cmp [
    | below ↦ some child
    | same ↦ child_at page next >>= find_child_loop page key key_len n (u16 (next + 4))
    | above ↦ child_at page next >>= find_child_loop page key key_len n (u16 (next + 4))
  ]

unfoldable pub stbt_internal_find_child : List ℕ → List ℕ → ℕ → Option ℕ
stbt_internal_find_child page key key_len = do
  count ← half_word page 1
  child ← child_at page 5
  find_child_loop page key key_len count 9 child

-- A zeroed page with the type of a leaf and no entry.
abbrev pub empty_leaf : List ℕ
empty_leaf = 1 ∷ replicate 4095 0

unfoldable pub header_bytes : ℕ → ℕ → ℕ → ℕ → ℕ → List ℕ
header_bytes magic root count entries height =
    write_u32 magic
    ++ (write_u32 root ++ (write_u32 count ++ (write_u32 entries ++ write_u32 height)))

module _ (api : StableApi) where
  open api use {Mem, pages, grow, read, write}

  unfoldable pub stbt_read_page : ℕ → Mem → Option (List ℕ)
  stbt_read_page page_num m = read (u32 (page_num * 4096)) 4096 m

  unfoldable pub stbt_write_page : ℕ → List ℕ → Mem → Option Mem
  stbt_write_page page_num page m = write (u32 (page_num * 4096)) page m

  unfoldable pub stbt_read_header : Tree Mem → Option (Tree Mem)
  stbt_read_header t = do
    b ← read 0 20 t.mem
    some (record t {
      magic = read_u32 b;
      root_page = read_u32 (drop 4 b);
      page_count = read_u32 (drop 8 b);
      entry_count = read_u32 (drop 12 b);
      height = read_u32 (drop 16 b);
    })

  unfoldable pub stbt_write_header : Tree Mem → Option (Tree Mem)
  stbt_write_header t = do
    m ← write 0 (header_bytes t.magic t.root_page t.page_count t.entry_count t.height) t.mem
    some (record t { mem = m })

  -- The header and the root leaf of an empty tree, as `stbt_init_if_needed` and `stbt_clear` write them.
  unfoldable pub stbt_clear : Tree Mem → Option (Tree Mem)
  stbt_clear t = do
    t1 ← stbt_write_header (record t {
      magic = tree_magic;
      root_page = 1;
      page_count = 2;
      entry_count = 0;
      height = 1;
    })
    m ← stbt_write_page 1 empty_leaf t1.mem
    some (record t1 { initialized = true; mem = m })

  unfoldable pub stbt_init_if_needed : Tree Mem → Option (Tree Mem)
  stbt_init_if_needed t =
      if t.initialized
      then some t
      else if pages t.mem == 0
      then stbt_clear (record t { mem = grow 1 t.mem })
      else do
        t1 ← stbt_read_header t
        if t1.magic == tree_magic then some (record t1 { initialized = true }) else stbt_clear t1

  -- The way from a page to the leaf, `n` levels down. With `check`, a page that is no inner node ends
  -- it: the inner `none`.
  unfoldable pub descend : Bool → List ℕ → ℕ → ℕ → ℕ → Mem → Option (Option ℕ)
  descend check key key_len zero page_num m = some (some page_num)
  descend check key key_len (suc n) page_num m = do
    page ← stbt_read_page page_num m
    kind ← get_elem? page 0
    if check && not (kind == 0) then some none else (do
      child ← stbt_internal_find_child page key key_len
      descend check key key_len n child m)

  -- `stbt_header.height - 1`.
  unfoldable pub levels : Tree Mem → ℕ
  levels t = u32 (t.height + 4294967295)

  -- The part of `stbt_get` at the leaf. The inner `none` is -1.
  unfoldable pub get_at : List ℕ → ℕ → ℕ → ℕ → Mem → Option (Option (ℕ × List ℕ))
  get_at key k_len max_len page_num m = do
    page ← stbt_read_page page_num m
    kind ← get_elem? page 0
    if not (kind == 1) then some none else (do
      (found, pos) ← stbt_leaf_find page key k_len
      if not found then some none else (do
        entry_key_len ← half_word page pos
        val_len ← half_word page (pos + 2 + entry_key_len)
        let copy_len = if ltb val_len max_len then val_len else max_len
        if leb (pos + 4 + entry_key_len + copy_len) (length page)
            then some (some (val_len, take copy_len (drop (pos + 4 + entry_key_len) page)))
            else none))

  unfoldable pub stbt_get : List ℕ → ℕ → Tree Mem → Option (Option (ℕ × List ℕ) × Tree Mem)
  stbt_get key max_val_len t0 = do
    t ← stbt_init_if_needed t0
    let k_len = u16 (length key)
    leaf ← descend true key k_len (levels t) t.root_page t.mem
    elim leaf [
      | none ↦ some (none, t)
      | some page_num ↦ do out ← get_at key k_len (u16 max_val_len) page_num t.mem; some (out, t)
    ]

  -- The part of `stbt_put` at the leaf, which the code has twice. The flag tells 0 from -1.
  unfoldable pub put_at : List ℕ → ℕ → List ℕ → ℕ → ℕ → Tree Mem → Option (Bool × Tree Mem)
  put_at key k_len val v_len page_num t = do
    page ← stbt_read_page page_num t.mem
    (found, pos) ← stbt_leaf_find page key k_len
    if found
        then (do
          entry_key_len ← half_word page pos
          old_val_len ← half_word page (pos + 2 + entry_key_len)
          if old_val_len == v_len
              then (do
                page' ← copy_in (pos + 4 + entry_key_len) (take v_len val) page
                m ← stbt_write_page page_num page' t.mem
                some (true, record t { mem = m }))
              else some (false, t))
        else (do
          used ← stbt_leaf_used_space page
          if ltb 4032 (used + u16 (2 + k_len + 2 + v_len)) then some (false, t) else (do
            page' ← stbt_leaf_insert_at pos key k_len val v_len page
            m ← stbt_write_page page_num page' t.mem
            t' ← stbt_write_header (record t { entry_count = u32 (t.entry_count + 1); mem = m })
            some (true, t')))

  -- With height 1 there is no level to go down.
  unfoldable pub stbt_put : List ℕ → List ℕ → Tree Mem → Option (Bool × Tree Mem)
  stbt_put key val t0 = do
    t ← stbt_init_if_needed t0
    let k_len = u16 (length key)
    let v_len = u16 (length val)
    if ltb 256 k_len || ltb 1024 v_len then some (false, t) else (do
      leaf ← descend false key k_len (levels t) t.root_page t.mem
      elim leaf [ none ↦ some (false, t) | some page_num ↦ put_at key k_len val v_len page_num t ])

  unfoldable pub stbt_count : Tree Mem → Option (ℕ × Tree Mem)
  stbt_count t0 = do t ← stbt_init_if_needed t0; some (t.entry_count, t)

  unfoldable pub stbt_height : Tree Mem → Option (ℕ × Tree Mem)
  stbt_height t0 = do t ← stbt_init_if_needed t0; some (t.height, t)
