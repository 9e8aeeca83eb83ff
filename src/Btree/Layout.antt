-- ===== src/Btree/Layout.antt =====
-- How a leaf of lib/ic0/stable_btree.c lays its entries out: the length of the key in two bytes, the
-- key, the length of the value in two bytes, the value.
use idris2_ouc.Base.{
  ℕ, ◌+◌, ◌*◌, ◌≤◌, ◌<◌, ◌≡◌, ◌∙◌, refl, sym, ap, List, [], ◌∷◌, ◌++◌, some, replicate, length,
  length-append, append_assoc, drop, arith,
}
use idris2_ouc.Base.Split.{drop-append}
use idris2_ouc.Btree.{two_bytes, half_word, stbt_key_cmp}
use idris2_ouc.Btree.Order.{lex, key_cmp-lex}
use idris2_ouc.Btree.First.{half_word-two_bytes}
use idris2_ouc.Btree.Entries.{Entry}

-- The bytes of an entry, and what stands behind it.
unfoldable pub entry_bytes : List ℕ → List ℕ → List ℕ → List ℕ
entry_bytes k v back = two_bytes (length k) ++ (k ++ (two_bytes (length v) ++ (v ++ back)))

unfoldable pub lay : List Entry → List ℕ → List ℕ
lay [] back = back
lay ((k, v) ∷ es) back = entry_bytes k v (lay es back)

unfoldable pub entry_size : List ℕ → List ℕ → ℕ
entry_size k v = 4 + length k + length v

unfoldable pub size : List Entry → ℕ
size [] = 0
size ((k, v) ∷ es) = entry_size k v + size es

-- The first 11 bytes of a leaf with `n` entries and no next leaf.
unfoldable pub leaf_head : ℕ → List ℕ
leaf_head n = 1 ∷ two_bytes n ++ replicate 8 0

pub length-entry_bytes :
    (k v back : List ℕ) → length (entry_bytes k v back) ≡ entry_size k v + length back
unfolding entry_bytes entry_size two_bytes
length-entry_bytes k v back =
    omega (arith, length-append k (two_bytes (length v) ++ (v ++ back)), length-append v back)

pub length-lay : (es : List Entry) (back : List ℕ) → length (lay es back) ≡ size es + length back
unfolding lay size
length-lay [] back = omega arith
length-lay ((k, v) ∷ es) back =
    omega (arith, length-entry_bytes k v (lay es back), length-lay es back)

entry_bytes-append :
    (k v mid back : List ℕ) → entry_bytes k v mid ++ back ≡ entry_bytes k v (mid ++ back)
unfolding entry_bytes two_bytes
entry_bytes-append k v mid back = simp append_assoc

pub lay-append : (es : List Entry) (mid back : List ℕ) → lay es mid ++ back ≡ lay es (mid ++ back)
unfolding lay
lay-append [] mid back = refl
lay-append ((k, v) ∷ es) mid back =
    entry_bytes-append k v (lay es mid) back ∙ ap (entry_bytes k v) (lay-append es mid back)

pub lay-append_lay :
    (es fs : List Entry) (back : List ℕ) → lay (es ++ fs) back ≡ lay es (lay fs back)
unfolding lay
lay-append_lay [] fs back = refl
lay-append_lay ((k, v) ∷ es) fs back = ap (entry_bytes k v) (lay-append_lay es fs back)

pub size-append : (es fs : List Entry) → size (es ++ fs) ≡ size es + size fs
unfolding size
size-append [] fs = omega arith
size-append ((k, v) ∷ es) fs = omega (arith, size-append es fs)

-- Each entry takes four bytes at least.
pub length-size : (es : List Entry) → 4 * length es ≤ size es
unfolding size entry_size
length-size [] = omega arith
length-size ((k, v) ∷ es) = omega (arith, length-size es)

-- Behind `front` a page is read in parts.
half_word_at :
    (page front back : List ℕ) (n o : ℕ)
    → page ≡ front ++ (two_bytes n ++ back)
    → o ≡ length front
    → n < 65536
    → half_word page o ≡ some n
half_word_at page front back n o e eo h = rw (e, eo) (half_word-two_bytes front back n h)

drop_at :
    (page front back : List ℕ) (o : ℕ)
    → page ≡ front ++ back
    → o ≡ length front
    → drop o page ≡ back
drop_at page front back o e eo = rw (e, eo) (drop-append front back)

-- An entry that stands at `o` in `page`.
module _ (page front k v back : List ℕ) (o : ℕ) (e : page ≡ front ++ entry_bytes k v back)
    (eo : o ≡ length front) (hk : length k < 65536) (hv : length v < 65536) where
  pub key_len_at : half_word page o ≡ some (length k)
  unfolding entry_bytes
  key_len_at =
      half_word_at page front (k ++ (two_bytes (length v) ++ (v ++ back))) (length k) o e eo hk

  pub key_at : drop (o + 2) page ≡ k ++ (two_bytes (length v) ++ (v ++ back))
  unfolding entry_bytes two_bytes
  key_at =
      drop_at page (front ++ two_bytes (length k)) (k ++ (two_bytes (length v) ++ (v ++ back)))
        (o + 2) (e ∙ simp append_assoc)
        (omega (arith, eo, length-append front (two_bytes (length k))))

  -- The comparison of a key with the key of the entry is the order of the two.
  pub key_cmp_at :
      (key : List ℕ)
      → stbt_key_cmp key (length key) (drop (o + 2) page) (length k) ≡ some (lex key k)
  key_cmp_at key = rw key_at (key_cmp-lex key k (two_bytes (length v) ++ (v ++ back)))

  before_val : List ℕ
  before_val = front ++ (two_bytes (length k) ++ k)

  length-before_val : length before_val ≡ o + 2 + length k
  unfolding before_val two_bytes
  length-before_val = omega (arith, eo, length-append front (two_bytes (length k) ++ k))

  page-before_val : page ≡ before_val ++ (two_bytes (length v) ++ (v ++ back))
  unfolding before_val entry_bytes two_bytes
  page-before_val = e ∙ simp append_assoc

  pub val_len_at : half_word page (o + 2 + length k) ≡ some (length v)
  val_len_at =
      half_word_at page before_val (v ++ back) (length v) (o + 2 + length k) page-before_val
        (sym length-before_val) hv

  pub val_at : drop (o + 4 + length k) page ≡ v ++ back
  unfolding two_bytes
  val_at =
      drop_at page (before_val ++ two_bytes (length v)) (v ++ back) (o + 4 + length k)
        (page-before_val ∙ simp append_assoc)
        (omega (arith, length-before_val, length-append before_val (two_bytes (length v))))
