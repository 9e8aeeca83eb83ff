-- ===== src/Btree/Search.antt =====
-- The loops of lib/ic0/stable_btree.c over the entries of a leaf: `stbt_leaf_find` stops where the
-- key is or belongs, and `stbt_leaf_used_space` measures the entries.
use idris2_ouc.Base.{
  ℕ, ◌+◌, ◌≤◌, ◌<◌, ◌≡◌, ◌∙◌, refl, ap, List, [], ◌∷◌, ◌++◌, some, length, length-append,
  append_assoc, replicate, arith, false, true, inl, inr,
}
use idris2_ouc.Btree.{
  leaf_find_loop, used_space_loop, stbt_leaf_find, stbt_leaf_used_space, half_word, two_bytes, u16,
}
use idris2_ouc.Btree.Order.{lex, Cmp-cases}
use idris2_ouc.Btree.First.{half_word-two_bytes}
use idris2_ouc.Btree.Entries.{Entry, before, is_at}
use idris2_ouc.Btree.Layout.{
  entry_bytes, entry_size, lay, size, leaf_head, key_len_at, key_cmp_at, val_len_at,
  length-entry_bytes, length-size,
}

-- The entries behind the first one.
module _ (page front k v : List ℕ) (es : List Entry) (back : List ℕ) (o : ℕ)
    (e : page ≡ front ++ lay ((k, v) ∷ es) back) (eo : o ≡ length front) where
  pub next_page : page ≡ (front ++ entry_bytes k v []) ++ lay es back
  unfolding lay entry_bytes two_bytes
  next_page = e ∙ simp append_assoc

  pub next_offset : o + entry_size k v ≡ length (front ++ entry_bytes k v [])
  next_offset =
      omega (arith, eo, length-append front (entry_bytes k v []), length-entry_bytes k v [])

  -- The offset of the next entry, as the loops compute it.
  pub next_u16 :
      o + size ((k, v) ∷ es) ≤ 4096 → u16 (o + (2 + length k + 2 + length v)) ≡ o + entry_size k v
  unfolding u16 size entry_size
  next_u16 h = omega arith

find_loop_lem :
    (es : List Entry) (page front back key : List ℕ) (o : ℕ)
    → page ≡ front ++ lay es back
    → o ≡ length front
    → o + size es ≤ 4096
    → leaf_find_loop page key (length key) (length es) o
      ≡ some (is_at key es, o + size (before key es))
unfolding leaf_find_loop is_at before size
find_loop_lem [] page front back key o e eo h = ap (λ x. some (false, x)) (omega arith)
find_loop_lem ((k, v) ∷ es) page front back key o e eo h =
    let hk : length k < 65536 = unfold entry_size in omega arith in
    let hv : length v < 65536 = unfold entry_size in omega arith in
    let e' : page ≡ front ++ entry_bytes k v (lay es back) = unfold lay in e in
    let read_key = key_len_at page front k v (lay es back) o e' eo hk hv in
    let compared = key_cmp_at page front k v (lay es back) o e' eo hk hv key in
    elim (Cmp-cases (lex key k)) [
      | inl c ↦ rw (read_key, compared, is_at, before, c) (ap (λ x. some (false, x)) (omega arith))
      | inr (inl c) ↦
          rw (read_key, compared, is_at, before, c) (ap (λ x. some (true, x)) (omega arith))
      | inr (inr c) ↦
          rw
            (
              read_key,
              compared,
              is_at,
              before,
              c,
              val_len_at page front k v (lay es back) o e' eo hk hv,
              next_u16 page front k v es back o e eo h,
            )
            (find_loop_lem es page (front ++ entry_bytes k v []) back key (o + entry_size k v)
                (next_page page front k v es back o e eo)
                (next_offset page front k v es back o e eo) (omega arith)
              ∙ ap (λ x. some (is_at key es, x)) (omega arith))
    ]

used_loop_lem :
    (es : List Entry) (page front back : List ℕ) (o : ℕ)
    → page ≡ front ++ lay es back
    → o ≡ length front
    → o + size es ≤ 4096
    → used_space_loop page (length es) o ≡ some (o + size es)
unfolding used_space_loop size
used_loop_lem [] page front back o e eo h = ap some (omega arith)
used_loop_lem ((k, v) ∷ es) page front back o e eo h =
    let hk : length k < 65536 = unfold entry_size in omega arith in
    let hv : length v < 65536 = unfold entry_size in omega arith in
    let e' : page ≡ front ++ entry_bytes k v (lay es back) = unfold lay in e in
    rw
      (
        key_len_at page front k v (lay es back) o e' eo hk hv,
        val_len_at page front k v (lay es back) o e' eo hk hv,
        next_u16 page front k v es back o e eo h,
      )
      (used_loop_lem es page (front ++ entry_bytes k v []) back (o + entry_size k v)
          (next_page page front k v es back o e eo) (next_offset page front k v es back o e eo)
          (omega arith)
        ∙ ap some (omega arith))

-- A leaf with the entries `es`, and anything behind them.
unfoldable pub leaf_page : List Entry → List ℕ → List ℕ
leaf_page es back = leaf_head (length es) ++ lay es back

module _ (es : List Entry) (back : List ℕ) (fits : 11 + size es ≤ 4096) where
  pub count_at : half_word (leaf_page es back) 1 ≡ some (length es)
  unfolding leaf_page leaf_head two_bytes lay
  count_at =
      half_word-two_bytes (1 ∷ []) (replicate 8 0 ++ lay es back) (length es)
        (omega (arith, length-size es))

  -- The search stops where the entries split.
  pub leaf_find_lem :
      (key : List ℕ)
      → stbt_leaf_find (leaf_page es back) key (length key)
        ≡ some (is_at key es, 11 + size (before key es))
  unfolding stbt_leaf_find leaf_page leaf_head two_bytes
  leaf_find_lem key =
      rw count_at
        (find_loop_lem es (leaf_page es back) (leaf_head (length es)) back key 11 refl refl fits)

  pub used_space_lem : stbt_leaf_used_space (leaf_page es back) ≡ some (11 + size es)
  unfolding stbt_leaf_used_space leaf_page leaf_head two_bytes
  used_space_lem =
      rw count_at
        (used_loop_lem es (leaf_page es back) (leaf_head (length es)) back 11 refl refl fits)
