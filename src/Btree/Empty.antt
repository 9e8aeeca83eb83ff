-- ===== src/Btree/Empty.antt =====
-- What a cleared tree answers.
use idris2_ouc.Base.{ℕ, ◌≤◌, ◌≡◌, ◌∙◌, refl, ap, List, none, some, true, false, length, arith}
use idris2_ouc.Word.Bytes.{write_u32}
use idris2_ouc.Stable.{StableApi}
use idris2_ouc.Stable.Span.{bytes}
use idris2_ouc.Stable.Writes.{write_then}
use idris2_ouc.Btree.{
  Tree, empty_leaf, header_bytes, stbt_read_page, stbt_write_page, stbt_write_header, stbt_clear,
  stbt_init_if_needed, stbt_get, stbt_count, descend, levels, get_at, stbt_leaf_find,
  leaf_find_loop, half_word, tree_magic, u16,
}

pub length-empty_leaf : length empty_leaf ≡ 4096
length-empty_leaf = refl

module _ (api : StableApi) where
  open api use {Mem, pages, byte, read, write, read_in}

  -- A running tree of one empty leaf.
  pub record IsEmptyTree (t : Tree Mem) : Type 0 where
    pub ready : t.initialized ≡ true
    pub root : t.root_page ≡ 1
    pub entries : t.entry_count ≡ 0
    pub one_level : t.height ≡ 1
    pub leaf : bytes (byte t.mem) 4096 4096 ≡ empty_leaf
    pub room : 1 ≤ pages t.mem

  pub clear-IsEmptyTree :
      (t : Tree Mem)
      → 1 ≤ pages t.mem
      → (t' : Tree Mem) × (stbt_clear api t ≡ some t') × IsEmptyTree t'
  unfolding stbt_clear stbt_write_header stbt_write_page header_bytes write_u32
  clear-IsEmptyTree t room =
      write_then api 0 (header_bytes tree_magic 1 2 0 1) t.mem (omega arith) λ m1 w1.
        write_then api 4096 empty_leaf m1 (omega (arith, length-empty_leaf, w1.same_pages)) λ m2 w2.
          (
            record {
              magic = tree_magic;
              root_page = 1;
              page_count = 2;
              entry_count = 0;
              height = 1;
              initialized = true;
              mem = m2;
            },
            ground (arith, w1.done, w2.done),
            record {
              ready = refl;
              root = refl;
              entries = refl;
              one_level = refl;
              leaf = w2.stored;
              room = omega (arith, w1.same_pages, w2.same_pages);
            },
          )

  pub find_nothing :
      (key : List ℕ) (k_len : ℕ) → stbt_leaf_find empty_leaf key k_len ≡ some (false, 11)
  unfolding stbt_leaf_find half_word leaf_find_loop
  find_nothing key k_len = refl

  get_nothing :
      (key : List ℕ) (k_len max : ℕ) (m : Mem)
      → 1 ≤ pages m
      → bytes (byte m) 4096 4096 ≡ empty_leaf
      → get_at api key k_len max 1 m ≡ some none
  unfolding get_at stbt_read_page
  get_nothing key k_len max m room e =
      rw (read_in 4096 4096 m (omega arith) ∙ ap some e, find_nothing key k_len) refl

  -- After `stbt_clear` on a memory that has a page, `stbt_count` answers 0 and `stbt_get` finds no
  -- key, whatever the memory held before.
  pub clear-get :
      (t : Tree Mem) (key : List ℕ) (max : ℕ)
      → 1 ≤ pages t.mem
      → (t' : Tree Mem) × (stbt_clear api t ≡ some t')
        × (stbt_count api t' ≡ some (0, t'))
        × (stbt_get api key max t' ≡ some (none, t'))
  unfolding stbt_count stbt_get stbt_init_if_needed descend levels
  clear-get t key max room =
      let (t', e, h) = clear-IsEmptyTree t room in
      (
        t',
        e,
        ground (arith, h.ready, h.entries),
        ground (
          arith,
          h.ready,
          h.root,
          h.one_level,
          get_nothing key (u16 (length key)) (u16 max) t'.mem h.room h.leaf,
        ),
      )
