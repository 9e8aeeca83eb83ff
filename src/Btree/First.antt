-- ===== src/Btree/First.antt =====
-- The first entry of a leaf: how the page looks, and that the search finds it.
use idris2_ouc.Base.{length-drop, length-replicate}
use idris2_ouc.Base.{
  ℕ, suc, ◌+◌, ◌*◌, ◌/◌, ◌%◌, ◌≤◌, ◌<◌, ◌≡◌, ◌∙◌, sym, refl, ap, List, [], ◌∷◌, ◌++◌, none, some,
  ◌>>=◌, true, length, arith, length-append, append_assoc, get_elem?, drop, take, replicate, bit_or,
  leb, if◌then◌else◌,
}
use idris2_ouc.Base.Split.{take_all, drop-append}
use idris2_ouc.Word.Bits.{bit_or-shl}
use idris2_ouc.Btree.{
  same, half_word, two_bytes, copy_in, empty_leaf, stbt_leaf_find, leaf_find_loop,
  stbt_leaf_used_space, used_space_loop, stbt_leaf_insert_at, stbt_key_cmp, u16,
}
use idris2_ouc.Btree.Order.{key_cmp-lex, lex_self}

pub in_page : (a b : ℕ) (x : List ℕ) → a ≤ b → (if leb a b then some x else none) ≡ some x
in_page a b x h = ground arith

half_word-cons : (x : ℕ) (page : List ℕ) (o : ℕ) → half_word (x ∷ page) (suc o) ≡ half_word page o
unfolding half_word
half_word-cons x page o =
    ap (λ p. get_elem? page o >>= λ a. get_elem? (x ∷ page) p >>= λ b. some (bit_or a (b * 256)))
      {x = suc o + 1} {y = suc (o + 1)} (omega arith)

pub half_word-two_bytes :
    (front back : List ℕ) (n : ℕ)
    → n < 65536
    → half_word (front ++ (two_bytes n ++ back)) (length front) ≡ some n
unfolding two_bytes
half_word-two_bytes [] back n h =
    unfold half_word in ap some (bit_or-shl 8 (n % 256) (n / 256 % 256) (omega arith) ∙ omega arith)
half_word-two_bytes (x ∷ front) back n h =
    half_word-cons x (front ++ (two_bytes n ++ back)) (length front)
    ∙ half_word-two_bytes front back n h

-- The leaf with one entry.
abbrev leaf_head : List ℕ
leaf_head = 1 ∷ 1 ∷ 0 ∷ replicate 8 0

abbrev pub one_leaf : List ℕ → List ℕ → List ℕ → List ℕ
one_leaf k v back =
    leaf_head ++ (two_bytes (length k) ++ (k ++ (two_bytes (length v) ++ (v ++ back))))

module _ (k v back : List ℕ) (hk : length k ≤ 256) (hv : length v ≤ 1024) where
  count-one : half_word (one_leaf k v back) 1 ≡ some 1
  unfolding half_word
  count-one = refl

  pub key_len-one : half_word (one_leaf k v back) 11 ≡ some (length k)
  key_len-one =
      half_word-two_bytes leaf_head (k ++ (two_bytes (length v) ++ (v ++ back))) (length k)
        (omega arith)

  key-one : stbt_key_cmp k (length k) (drop 13 (one_leaf k v back)) (length k) ≡ some same
  unfolding two_bytes
  key-one = key_cmp-lex k k (two_bytes (length v) ++ (v ++ back)) ∙ ap some (lex_self k)

  pub find-one : stbt_leaf_find (one_leaf k v back) k (length k) ≡ some (true, 11)
  unfolding stbt_leaf_find leaf_find_loop
  find-one = rw (count-one, key_len-one, key-one) refl

  -- The bytes before the value's length.
  before : List ℕ
  before = leaf_head ++ (two_bytes (length k) ++ k)

  one_leaf-before : one_leaf k v back ≡ before ++ (two_bytes (length v) ++ (v ++ back))
  unfolding before two_bytes
  one_leaf-before = ap (λ r. leaf_head ++ (two_bytes (length k) ++ r)) refl

  length-before : length before ≡ 13 + length k
  unfolding before two_bytes
  length-before = omega arith

  pub val_len-one : half_word (one_leaf k v back) (13 + length k) ≡ some (length v)
  val_len-one =
      ap (λ p. half_word p (13 + length k)) one_leaf-before
      ∙ ap (half_word (before ++ (two_bytes (length v) ++ (v ++ back)))) (sym length-before)
      ∙ half_word-two_bytes before (v ++ back) (length v) (omega arith)

  length-front : length (before ++ two_bytes (length v)) ≡ 15 + length k
  unfolding two_bytes
  length-front = omega (arith, length-append before (two_bytes (length v)), length-before)

  pub val-one : drop (15 + length k) (one_leaf k v back) ≡ v ++ back
  val-one =
      ap (drop (15 + length k))
        (one_leaf-before ∙ sym (append_assoc before (two_bytes (length v)) (v ++ back)))
      ∙ ap (λ n. drop n ((before ++ two_bytes (length v)) ++ (v ++ back))) (sym length-front)
      ∙ drop-append (before ++ two_bytes (length v)) (v ++ back)

module _ (k v : List ℕ) (hk : length k ≤ 256) (hv : length v ≤ 1024) where
  -- The bytes of the entry.
  entry : List ℕ
  entry = two_bytes (length k) ++ (k ++ (two_bytes (length v) ++ v))

  pub after_entry : List ℕ
  after_entry = drop (11 + length entry) empty_leaf

  length-entry : length entry ≡ 4 + length k + length v
  unfolding entry two_bytes
  length-entry =
      omega
        (arith, length-append k (two_bytes (length v) ++ v), length-append (two_bytes (length v)) v)

  pub used-empty : stbt_leaf_used_space empty_leaf ≡ some 11
  unfolding stbt_leaf_used_space half_word used_space_loop
  used-empty = refl

  count-empty : half_word empty_leaf 1 ≡ some 0
  unfolding half_word
  count-empty = refl

  copy-entry : copy_in 11 entry empty_leaf ≡ some (take 11 empty_leaf ++ (entry ++ after_entry))
  unfolding copy_in after_entry
  copy-entry =
      in_page (11 + length entry) 4096
        (take 11 empty_leaf ++ (entry ++ drop (11 + length entry) empty_leaf))
        (omega (arith, length-entry))

  copy-count :
      copy_in 1 (two_bytes (u16 (0 + 1))) (take 11 empty_leaf ++ (entry ++ after_entry))
      ≡ some (leaf_head ++ (entry ++ after_entry))
  unfolding copy_in two_bytes u16
  copy-count =
      in_page 3 (length (take 11 empty_leaf ++ (entry ++ after_entry)))
        (leaf_head ++ (entry ++ after_entry)) (omega arith)

  entry_assoc : leaf_head ++ (entry ++ after_entry) ≡ one_leaf k v after_entry
  unfolding entry two_bytes
  entry_assoc =
      ap (λ r. leaf_head ++ (length k % 256 ∷ length k / 256 % 256 ∷ r))
        (append_assoc k (two_bytes (length v) ++ v) after_entry)

  pub insert-empty :
      stbt_leaf_insert_at 11 k (length k) v (length v) empty_leaf ≡ some (one_leaf k v after_entry)
  unfolding stbt_leaf_insert_at
  insert-empty =
      rw
        (
          count-empty,
          used-empty,
          take_all (length k) k (omega arith),
          take_all (length v) v (omega arith),
        )
        (ap (λ o. o >>= copy_in 1 (two_bytes (u16 (0 + 1)))) copy_entry'
          ∙ copy-count
          ∙ ap some entry_assoc)
    where
      copy_entry' :
          copy_in 11 (two_bytes (length k) ++ (k ++ (two_bytes (length v) ++ v))) empty_leaf
          ≡ some (take 11 empty_leaf ++ (entry ++ after_entry))
      copy_entry' = unfold entry in copy-entry

  pub length-one_leaf : length (one_leaf k v after_entry) ≡ 4096
  unfolding two_bytes after_entry
  length-one_leaf = omega (
    arith,
    length-append k (two_bytes (length v) ++ (v ++ after_entry)),
    length-append v after_entry,
    length-drop (11 + length entry) empty_leaf,
    length-replicate {A = ℕ} 4095 0,
    length-entry,
  )
