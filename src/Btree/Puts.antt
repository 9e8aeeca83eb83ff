-- ===== src/Btree/Puts.antt =====
-- `stbt_put` of lib/ic0/stable_btree.c inserts into the sorted list of entries, overwrites a value
-- with one of its size, or refuses and changes nothing.
use idris2_ouc.Base.{
  ℕ, ◌+◌, ◌≤◌, ◌≡◌, ◌∙◌, refl, sym, ap, List, some, Bool, true, false, leb, ltb, ◌==◌, ◌&&◌, length,
  arith, inl, inr, Bool-cases,
}
use idris2_ouc.Base.Split.{take_all}
use idris2_ouc.Word.{u32}
use idris2_ouc.Stable.{StableApi}
use idris2_ouc.Stable.Span.{bytes}
use idris2_ouc.Stable.Writes.{write_then}
use idris2_ouc.Btree.{
  tree_magic, header_bytes, stbt_read_page, stbt_write_page, stbt_write_header, put_at, u16,
}
use idris2_ouc.Btree.Entries.{
  Entry, insert, insert-IsSorted, is_at, is_at-Found, is_at-lookup, Found,
}
use idris2_ouc.Btree.Layout.{entry_size, size, length-size}
use idris2_ouc.Btree.Search.{leaf_page, leaf_find_lem, used_space_lem}
use idris2_ouc.Btree.Overwrite.{
  key_len-found, val_len-found, overwrite_lem, length-inserted, size-inserted,
}
use idris2_ouc.Btree.Insert.{length-leaf_page, insert_at_lem, length-insert}
use idris2_ouc.Btree.Refine.{running, Holds, leaf-fits, length-header_bytes, accepts, put}
use idris2_ouc.Btree.Reads.{read_leaf}

module _ (api : StableApi) (key val : List ℕ) (es : List Entry) (m : api.Mem)
    (hk : length key ≤ 256) (hv : length val ≤ 1024) (h : Holds api es m) where
  open api use {Mem, pages, byte, read_in}

  abbrev fits : 11 + size es ≤ 4096
  fits = omega (arith, leaf-fits api es m h)

  -- What `put_at` answers and leaves: the flag, and a memory of the new entries.
  abbrev Puts : Bool → List Entry → Type 0
  Puts taken es' =
      (m' : Mem) × (put_at api key (length key) val (length val) 1 (running api (length es) m)
        ≡ some (taken, running api (length es') m'))
      × Holds api es' m'

  module _ (c : is_at key es ≡ true) (f : Found key es) where
    put-resized : (length (f.old) == length val) ≡ false → Puts false es
    unfolding put_at stbt_read_page running
    put-resized ne = (
      m,
      rw
          (
            read_leaf api es m h,
            leaf_find_lem es h.back fits key,
            c,
            key_len-found key es h.back f fits,
            val_len-found key es h.back f fits,
            ne,
          )
          refl,
      h,
    )

    put-overwritten : length f.old ≡ length val → Puts true (insert key val es)
    unfolding put_at stbt_read_page stbt_write_page running
    put-overwritten eq =
        let page = leaf_page (insert key val es) h.back in
        let full : length page ≡ 4096 = omega (
          arith,
          length-leaf_page (insert key val es) h.back,
          size-inserted key es h.back f fits val eq,
          leaf-fits api es m h,
        ) in
        write_then api 4096 page m (omega (arith, full, h.room)) λ m' w. (
          m',
          rw
              (
                read_leaf api es m h,
                leaf_find_lem es h.back fits key,
                c,
                key_len-found key es h.back f fits,
                val_len-found key es h.back f fits,
                same_test eq,
                take_all (length val) val (omega arith),
                overwrite_lem key es h.back f fits val eq,
                w.done,
              )
              (ap (λ n. some (true, running api n m')) (length-inserted key es h.back f fits val)),
          record {
            back = h.back;
            leaf = ap (bytes (byte m') 4096) (sym full) ∙ w.stored;
            header =
                w.kept 0 20 (inl (omega arith))
                ∙ h.header
                ∙ ap (λ n. header_bytes tree_magic 1 2 n 1)
                    (length-inserted key es h.back f fits val);
            sorted = insert-IsSorted key val es h.sorted;
            room = omega (arith, w.same_pages, h.room);
          },
        )
      where
        same_test : length f.old ≡ length val → (length f.old == length val) ≡ true
        same_test e = ground arith

  module _ (c : is_at key es ≡ false) where
    u16-size : u16 (2 + length key + 2 + length val) ≡ entry_size key val
    unfolding u16 entry_size
    u16-size = omega arith

    put-full : ltb 4032 (11 + size es + entry_size key val) ≡ true → Puts false es
    unfolding put_at stbt_read_page running
    put-full full = (
      m,
      rw
          (
            read_leaf api es m h,
            leaf_find_lem es h.back fits key,
            c,
            used_space_lem es h.back fits,
            u16-size,
            full,
          )
          refl,
      h,
    )

    put-inserted : 11 + size es + entry_size key val ≤ 4032 → Puts true (insert key val es)
    unfolding put_at stbt_read_page stbt_write_page stbt_write_header running
    put-inserted free =
        let (unused, inserted, full) =
          insert_at_lem key val es h.back hk hv c
            (omega (arith, length-leaf_page es h.back, leaf-fits api es m h)) (omega arith) in
        let page = leaf_page (insert key val es) unused in
        let es' = insert key val es in
        let head = header_bytes tree_magic 1 2 (length es') 1 in
        let twenty : length head ≡ 20 = length-header_bytes tree_magic 1 2 (length es') 1 in
        write_then api 4096 page m (omega (arith, full, h.room)) λ m1 w1.
          write_then api 0 head m1 (omega (arith, twenty, w1.same_pages, h.room)) λ m2 w2. (
            m2,
            rw
                (
                  read_leaf api es m h,
                  leaf_find_lem es h.back fits key,
                  c,
                  used_space_lem es h.back fits,
                  u16-size,
                  not_full,
                  inserted,
                  w1.done,
                  count_up,
                  w2.done,
                )
                refl,
            record {
              back = unused;
              leaf =
                  w2.kept 4096 4096 (inr (omega (arith, twenty)))
                  ∙ ap (bytes (byte m1) 4096) (sym full)
                  ∙ w1.stored;
              header = ap (bytes (byte m2) 0) (sym twenty) ∙ w2.stored;
              sorted = insert-IsSorted key val es h.sorted;
              room = omega (arith, w1.same_pages, w2.same_pages, h.room);
            },
          )
      where
        not_full : ltb 4032 (11 + size es + entry_size key val) ≡ false
        not_full = ground arith

        count_up : u32 (length es + 1) ≡ length (insert key val es)
        count_up = omega (arith, length-size es, length-insert key val es c, leaf-fits api es m h)

  pub put_at_lem : Puts (accepts key val es) (put key val es)
  unfolding accepts put
  put_at_lem = elim (Bool-cases (is_at key es)) [
    | inl c ↦
        let f : Found key es = is_at-Found key es c in
        elim (Bool-cases (length f.old == length val)) [
          | inl e ↦ rw (small, f.value, e) (put-overwritten c f (ground arith))
          | inr e ↦ rw (small, f.value, e) (put-resized c f e)
        ]
    | inr c ↦ elim (Bool-cases (leb (11 + size es + entry_size key val) 4032)) [
      | inl e ↦ rw (small, is_at-lookup key es h.sorted c, e) (put-inserted c (ground arith))
      | inr e ↦ rw (small, is_at-lookup key es h.sorted c, e) (put-full c (ground arith))
    ]
  ]
    where
      small : (leb (length key) 256 && leb (length val) 1024) ≡ true
      small = ground arith
