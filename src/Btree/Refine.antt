-- ===== src/Btree/Refine.antt =====
-- The tree of lib/ic0/stable_btree.c is a sorted list of entries: what `stbt_put`, `stbt_get`,
-- `stbt_count` and `stbt_init_if_needed` do to it.
use idris2_ouc.Base.{
  ℕ, ◌+◌, ◌≤◌, ◌<◌, ◌≡◌, ◌∙◌, refl, sym, ap, List, some, none, Bool, true, leb, ◌==◌, ◌&&◌,
  if◌then◌else◌, length, arith,
}
use idris2_ouc.Word.Bytes.{write_u32}
use idris2_ouc.Stable.{StableApi}
use idris2_ouc.Stable.Span.{bytes, length-bytes}
use idris2_ouc.Btree.{Tree, tree_magic, header_bytes, u16}
use idris2_ouc.Btree.Entries.{Entry, lookup, insert, IsSorted}
use idris2_ouc.Btree.Layout.{entry_size, size}
use idris2_ouc.Btree.Search.{leaf_page}
use idris2_ouc.Btree.Insert.{length-leaf_page}

-- Whether `stbt_put` takes the entry: the sizes, then a value of the old one's size or room for a
-- new entry.
unfoldable pub accepts : List ℕ → List ℕ → List Entry → Bool
accepts key val es = leb (length key) 256 && leb (length val) 1024 && elim (lookup key es) [
  | none ↦ leb (11 + size es + entry_size key val) 4032
  | some old ↦ length old == length val
]

unfoldable pub put : List ℕ → List ℕ → List Entry → List Entry
put key val es = if accepts key val es then insert key val es else es

pub length-header_bytes : (a b c d e : ℕ) → length (header_bytes a b c d e) ≡ 20
unfolding header_bytes write_u32
length-header_bytes a b c d e = refl

pub u16_small : (n : ℕ) → n < 65536 → u16 n ≡ n
unfolding u16
u16_small n h = omega arith

module _ (api : StableApi) where
  open api use {Mem, pages, byte, read_in}

  -- A running tree with `n` entries.
  unfoldable pub running : ℕ → Mem → Tree Mem
  running n m = record {
    magic = tree_magic;
    root_page = 1;
    page_count = 2;
    entry_count = n;
    height = 1;
    initialized = true;
    mem = m;
  }

  -- The memory has the header and the leaf of the entries.
  pub record Holds (es : List Entry) (m : Mem) : Type 0 where
    pub back : List ℕ
    pub leaf : bytes (byte m) 4096 4096 ≡ leaf_page es back
    pub header : bytes (byte m) 0 20 ≡ header_bytes tree_magic 1 2 (length es) 1
    pub sorted : IsSorted es
    pub room : 1 ≤ pages m

  pub leaf-fits : (es : List Entry) (m : Mem) (h : Holds es m) → 11 + size es + length h.back ≡ 4096
  leaf-fits es m h =
      sym (length-leaf_page es h.back) ∙ ap length (sym h.leaf) ∙ length-bytes (byte m) 4096 4096
