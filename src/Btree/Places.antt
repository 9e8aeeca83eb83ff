-- ===== src/Btree/Places.antt =====
-- The place of a scan of lib/ic0/stable_btree.c in a leaf: the index of the entry there, the copies
-- of its parts, and the next leaf.
use idris2_ouc.Base.{
  ℕ, zero, suc, ◌+◌, ◌≤◌, ◌<◌, ◌≡◌, ◌∙◌, sym, ap, List, [], ◌∷◌, ◌++◌, some, true, length,
  append_assoc, drop, arith, ltb,
}
use idris2_ouc.Base.Split.{take-append}
use idris2_ouc.Word.Bytes.{read_u32}
use idris2_ouc.Btree.{child_at, two_bytes}
use idris2_ouc.Btree.First.{in_page}
use idris2_ouc.Btree.Entries.{Entry}
use idris2_ouc.Btree.Layout.{
  entry_bytes, entry_size, lay, size, lay-append, lay-append_lay, leaf_head, key_len_at, val_len_at,
}
use idris2_ouc.Btree.Search.{next_page, next_offset, next_u16, leaf_page}
use idris2_ouc.Btree.Scan.{index_loop, copy_out, at_most}

pub index_lem :
    (done : List Entry) (page front back : List ℕ) (target o i n : ℕ)
    → page ≡ front ++ lay done back
    → o ≡ length front
    → target ≡ o + size done
    → target ≤ 4096
    → length done ≤ n
    → index_loop page target n o i ≡ some (i + length done)
unfolding index_loop size
index_lem [] page front back target o i zero e eo et h le = ap some (omega arith)
index_lem [] page front back target o i (suc n) e eo et h le = ground arith
index_lem ((k, v) ∷ done) page front back target o i zero e eo et h le = absurd (omega arith)
index_lem ((k, v) ∷ done) page front back target o i (suc n) e eo et h le =
    let hk : length k < 65536 = unfold entry_size in omega arith in
    let hv : length v < 65536 = unfold entry_size in omega arith in
    let e' : page ≡ front ++ entry_bytes k v (lay done back) = unfold lay in e in
    rw
      (
        inside,
        key_len_at page front k v (lay done back) o e' eo hk hv,
        val_len_at page front k v (lay done back) o e' eo hk hv,
        next_u16 page front k v done back o e eo (omega arith),
      )
      (index_lem done page (front ++ entry_bytes k v []) back target (o + entry_size k v) (i + 1) n
          (next_page page front k v done back o e eo) (next_offset page front k v done back o e eo)
          (omega arith) h (omega arith)
        ∙ ap some (omega arith))
  where
    inside : ltb o target ≡ true
    inside = unfold entry_size in ground arith

pub copy_out_at :
    (page bs rest : List ℕ) (o n : ℕ)
    → drop o page ≡ bs ++ rest
    → n ≡ length bs
    → o + length bs ≤ length page
    → copy_out o n page ≡ some bs
unfolding copy_out
copy_out_at page bs rest o n e en h =
    rw (en, e, take-append bs rest) (in_page (o + length bs) (length page) bs h)

pub at_most_lem : (n max : ℕ) → n ≤ max → at_most n max ≡ n
unfolding at_most
at_most_lem n max h = ground arith

pub leaf_page-at :
    (es done todo : List Entry) (back : List ℕ)
    → es ≡ done ++ todo
    → leaf_page es back ≡ (leaf_head (length es) ++ lay done []) ++ lay todo back
unfolding leaf_page
leaf_page-at es done todo back e =
    ap (λ r. leaf_head (length es) ++ r)
      (ap (λ xs. lay xs back) e
        ∙ lay-append_lay done todo back
        ∙ sym (lay-append done [] (lay todo back)))
    ∙ sym (append_assoc (leaf_head (length es)) (lay done []) (lay todo back))

pub no_next_leaf : (es : List Entry) (back : List ℕ) → child_at (leaf_page es back) 3 ≡ some 0
unfolding child_at leaf_page leaf_head two_bytes read_u32
no_next_leaf es back = ground arith
