-- ===== src/Btree/Overwrite.antt =====
-- The entry that the search of lib/ic0/stable_btree.c found: reading it, and writing a value of the
-- same size over its value.
use idris2_ouc.Base.{
  ℕ, ◌+◌, ◌≤◌, ◌<◌, ◌≡◌, ◌∙◌, sym, ap, ap₂, List, [], ◌∷◌, ◌++◌, some, length, length-append,
  append_assoc, drop, arith,
}
use idris2_ouc.Btree.{copy_in, two_bytes, half_word}
use idris2_ouc.Btree.Entries.{Entry, insert, before, after, before-append-after, Found}
use idris2_ouc.Btree.Layout.{
  entry_bytes, entry_size, lay, size, leaf_head, lay-append, lay-append_lay, key_len_at, val_len_at,
  val_at, size-append,
}
use idris2_ouc.Btree.Search.{leaf_page}
use idris2_ouc.Btree.Insertion.{
  copy_over_at, front_of, length-front_of, leaf_page-split, size-split,
}

module _ (key : List ℕ) (es : List Entry) (back : List ℕ) (f : Found key es)
    (fits : 11 + size es ≤ 4096) where
  abbrev pos : ℕ
  pos = 11 + size (before key es)

  size-found : size es ≡ size (before key es) + (entry_size key f.old + size f.others)
  unfolding size
  size-found = size-split es back key ∙ ap (λ xs. size (before key es) + size xs) f.place

  page-found : leaf_page es back ≡ front_of es back key ++ entry_bytes key f.old (lay f.others back)
  unfolding lay
  page-found = leaf_page-split es back key ∙ ap (λ xs. front_of es back key ++ lay xs back) f.place

  key_small : length key < 65536
  unfolding entry_size
  key_small = omega (arith, size-found)

  old_small : length f.old < 65536
  unfolding entry_size
  old_small = omega (arith, size-found)

  pub key_len-found : half_word (leaf_page es back) pos ≡ some (length key)
  key_len-found =
      key_len_at (leaf_page es back) (front_of es back key) key f.old (lay f.others back) pos
        page-found (sym (length-front_of es back key)) key_small old_small

  pub val_len-found : half_word (leaf_page es back) (pos + 2 + length key) ≡ some (length f.old)
  val_len-found =
      val_len_at (leaf_page es back) (front_of es back key) key f.old (lay f.others back) pos
        page-found (sym (length-front_of es back key)) key_small old_small

  pub val-found : drop (pos + 4 + length key) (leaf_page es back) ≡ f.old ++ lay f.others back
  val-found =
      val_at (leaf_page es back) (front_of es back key) key f.old (lay f.others back) pos page-found
        (sym (length-front_of es back key)) key_small old_small

  -- The value lies inside the page.
  pub val-inside : pos + 4 + length key + length f.old ≤ 4096
  unfolding entry_size
  val-inside = omega (arith, size-found)

  pub length-inserted : (val : List ℕ) → length es ≡ length (insert key val es)
  length-inserted val =
      ap length (sym (before-append-after key es))
      ∙ omega (
        arith,
        length-append (before key es) (after key es),
        ap length f.place,
        ap length (f.inserted val),
        length-append (before key es) ((key, val) ∷ f.others),
      )

  pub size-inserted :
      (val : List ℕ) → length f.old ≡ length val → size (insert key val es) ≡ size es
  unfolding size entry_size
  size-inserted val same_size =
      ap size (f.inserted val)
      ∙ size-append (before key es) ((key, val) ∷ f.others)
      ∙ omega (arith, size-found)

  page-inserted :
      (val : List ℕ)
      → front_of es back key ++ entry_bytes key val (lay f.others back)
        ≡ leaf_page (insert key val es) back
  unfolding lay leaf_page
  page-inserted val =
      append_assoc (leaf_head (length es)) (lay (before key es) [])
        (entry_bytes key val (lay f.others back))
      ∙ ap₂ (λ n r. leaf_head n ++ r) (length-inserted val)
          (lay-append (before key es) [] (entry_bytes key val (lay f.others back))
            ∙ sym (lay-append_lay (before key es) ((key, val) ∷ f.others) back)
            ∙ ap (λ xs. lay xs back) (sym (f.inserted val)))

  before_value : ℕ → List ℕ
  before_value n = front_of es back key ++ (two_bytes (length key) ++ (key ++ two_bytes n))

  entry_at :
      (val : List ℕ)
      → front_of es back key ++ entry_bytes key val (lay f.others back)
        ≡ before_value (length val) ++ (val ++ lay f.others back)
  unfolding entry_bytes two_bytes before_value
  entry_at val = simp append_assoc

  length-before_value : (n : ℕ) → pos + 4 + length key ≡ length (before_value n)
  unfolding before_value two_bytes
  length-before_value n = omega (
    arith,
    length-front_of es back key,
    length-append (front_of es back key) (two_bytes (length key) ++ (key ++ two_bytes n)),
    length-append key (two_bytes n),
  )

  pub overwrite_lem :
      (val : List ℕ)
      → length f.old ≡ length val
      → copy_in (pos + 4 + length key) val (leaf_page es back)
        ≡ some (leaf_page (insert key val es) back)
  overwrite_lem val same_size =
      copy_over_at (leaf_page es back) (before_value (length f.old)) f.old (lay f.others back) val
        (pos + 4 + length key) (page-found ∙ entry_at f.old) (length-before_value (length f.old))
        (sym same_size)
      ∙ ap (λ n. some (before_value n ++ (val ++ lay f.others back))) same_size
      ∙ ap some (sym (entry_at val) ∙ page-inserted val)
