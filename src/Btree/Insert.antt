-- ===== src/Btree/Insert.antt =====
-- `stbt_leaf_insert_at` and the overwriting of a value in lib/ic0/stable_btree.c, on the entries.
use idris2_ouc.Base.{
  ℕ, ◌+◌, ◌≤◌, ◌≡◌, ◌∙◌, refl, sym, ap, List, [], ◌∷◌, ◌++◌, some, length, length-append,
  append_assoc, replicate, false, arith,
}
use idris2_ouc.Base.Split.{take_all}
use idris2_ouc.Btree.{copy_in, two_bytes, u16, stbt_leaf_insert_at}
use idris2_ouc.Btree.Entries.{Entry, insert, before, after, is_at}
use idris2_ouc.Btree.Layout.{
  entry_bytes, entry_size, lay, size, leaf_head, length-lay, lay-append, lay-append_lay,
  size-append, length-size,
}
use idris2_ouc.Btree.Search.{leaf_page, count_at, used_space_lem}
use idris2_ouc.Btree.Insertion.{
  copy_over, copy_over_at, Gap, front_of, length-front_of, tail_of, length-tail_of, size-split,
  shifted_lem, insert_apart,
}

pub length-leaf_page :
    (es : List Entry) (back : List ℕ) → length (leaf_page es back) ≡ 11 + size es + length back
unfolding leaf_page leaf_head two_bytes
length-leaf_page es back = omega (arith, length-lay es back)

-- The bytes of an entry as the code writes them.
abbrev written_entry : List ℕ → List ℕ → List ℕ
written_entry k v = two_bytes (length k) ++ (k ++ (two_bytes (length v) ++ v))

length-written_entry : (k v : List ℕ) → length (written_entry k v) ≡ entry_size k v
unfolding two_bytes entry_size
length-written_entry k v = omega (arith, length-append k (two_bytes (length v) ++ v))

written_entry-append : (k v back : List ℕ) → written_entry k v ++ back ≡ entry_bytes k v back
unfolding two_bytes entry_bytes
written_entry-append k v back = simp append_assoc

pub length-insert :
    (key val : List ℕ) (es : List Entry)
    → is_at key es ≡ false
    → length (insert key val es) ≡ length es + 1
unfolding is_at insert
length-insert key val [] h = refl
length-insert key val ((k, v) ∷ es) h = ground (arith, length-insert key val es)

-- The entries of the new page behind its count.
lay-insert :
    (key val : List ℕ) (es : List Entry) (unused : List ℕ)
    → is_at key es ≡ false
    → lay (before key es) [] ++ (written_entry key val ++ (lay (after key es) [] ++ unused))
      ≡ lay (insert key val es) unused
unfolding lay
lay-insert key val es unused h =
    lay-append (before key es) [] (written_entry key val ++ (lay (after key es) [] ++ unused))
    ∙ ap (lay (before key es)) (
        written_entry-append key val (lay (after key es) [] ++ unused)
        ∙ ap (entry_bytes key val) (lay-append (after key es) [] unused))
    ∙ sym (lay-append_lay (before key es) ((key, val) ∷ after key es) unused)
    ∙ ap (λ xs. lay xs unused) (sym (insert_apart key val es h))

module _ (key val : List ℕ) (es : List Entry) (back : List ℕ) (hk : length key ≤ 256)
    (hv : length val ≤ 1024) (apart : is_at key es ≡ false)
    (full : length (leaf_page es back) ≡ 4096)
    (fits : 11 + size es + entry_size key val ≤ 4096) where
  -- The new count, written over the old one.
  counted :
      (rest : List ℕ)
      → copy_in 1 (two_bytes (u16 (length es + 1))) (leaf_head (length es) ++ rest)
        ≡ some (leaf_head (length (insert key val es)) ++ rest)
  unfolding leaf_head two_bytes u16
  counted rest =
      ap (λ n. copy_in 1 (two_bytes n) (leaf_head (length es) ++ rest)) {x = u16 (length es + 1)}
        {y = length (insert key val es)}
        (omega (arith, length-insert key val es apart, length-size es))
      ∙ copy_over (1 ∷ []) (two_bytes (length es)) (replicate 8 0 ++ rest)
          (two_bytes (length (insert key val es))) refl

  -- The new entry, written into the gap.
  entered :
      (total : ℕ) (page : List ℕ)
      (g : Gap (front_of es back key) (tail_of es back key) (entry_size key val) total page)
      → copy_in (11 + size (before key es)) (written_entry key val) page
        ≡ some (leaf_head (length es) ++ lay (insert key val es) g.unused)
  entered total page g =
      copy_over_at page (front_of es back key) g.hole (tail_of es back key ++ g.unused)
        (written_entry key val) (11 + size (before key es)) g.parts
        (sym (length-front_of es back key))
        (omega (arith, length-written_entry key val, g.hole_size))
      ∙ ap some (
          append_assoc (leaf_head (length es)) (lay (before key es) [])
            (written_entry key val ++ (tail_of es back key ++ g.unused))
          ∙ ap (λ r. leaf_head (length es) ++ r) (lay-insert key val es g.unused apart))

  u16-entry_size : u16 (2 + length key + 2 + length val) ≡ entry_size key val
  unfolding u16 entry_size
  u16-entry_size = omega arith

  size-insert : size (insert key val es) ≡ size es + entry_size key val
  unfolding size
  size-insert =
      ap size (insert_apart key val es apart)
      ∙ size-append (before key es) ((key, val) ∷ after key es)
      ∙ omega (arith, size-split es back key)

  pub insert_at_lem :
      (unused : List ℕ) × (stbt_leaf_insert_at
          (11 + size (before key es))
          key
          (length key)
          val
          (length val)
          (leaf_page es back)
        ≡ some (leaf_page (insert key val es) unused))
      × (length (leaf_page (insert key val es) unused) ≡ 4096)
  unfolding stbt_leaf_insert_at leaf_page leaf_head
  insert_at_lem =
      let (page, e, g) =
        shifted_lem es back key (entry_size key val) (omega (arith, length-leaf_page es back)) in
      (
        g.unused,
        rw
            (
              count_at es back (omega arith),
              used_space_lem es back (omega arith),
              u16-entry_size,
              take_all (length key) key (omega arith),
              take_all (length val) val (omega arith),
              e,
              entered (length (leaf_page es back)) page g,
            )
            (counted (lay (insert key val es) g.unused)),
        omega (
          arith,
          full,
          g.page_size,
          ap length g.parts,
          g.hole_size,
          length-append (front_of es back key) (g.hole ++ (tail_of es back key ++ g.unused)),
          length-append g.hole (tail_of es back key ++ g.unused),
          length-append (tail_of es back key) g.unused,
          length-front_of es back key,
          length-tail_of es back key,
          length-leaf_page (insert key val es) g.unused,
          size-insert,
          size-split es back key,
        ),
      )
