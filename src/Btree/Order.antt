-- ===== src/Btree/Order.antt =====
-- `stbt_key_cmp` is the lexicographic order of the keys.
use idris2_ouc.Base.{
  ℕ, ◌≡◌, refl, List, [], ◌∷◌, ◌++◌, some, ltb, if◌then◌else◌, length, arith, ◌⊎◌, inl, inr,
}
use idris2_ouc.Btree.{Cmp, below, same, above, cmp_bytes, stbt_key_cmp}

pub Cmp-cases : (c : Cmp) → (c ≡ below) ⊎ ((c ≡ same) ⊎ (c ≡ above))
Cmp-cases below = inl refl
Cmp-cases same = inr (inl refl)
Cmp-cases above = inr (inr refl)

-- The order of two keys: the first byte that differs decides, and a key comes before its extensions.
unfoldable pub lex : List ℕ → List ℕ → Cmp
lex [] [] = same
lex [] (y ∷ j) = below
lex (x ∷ k) [] = above
lex (x ∷ k) (y ∷ j) =
    let more = lex k j in if ltb x y then below else if ltb y x then above else more

-- `stbt_key_cmp` of a key and a key that stands in a page, with anything behind it, is their
-- lexicographic order.
pub key_cmp-lex :
    (k j rest : List ℕ) → stbt_key_cmp k (length k) (j ++ rest) (length j) ≡ some (lex k j)
unfolding stbt_key_cmp cmp_bytes lex
key_cmp-lex [] [] rest = ground arith
key_cmp-lex [] (y ∷ j) rest = ground arith
key_cmp-lex (x ∷ k) [] rest = ground arith
key_cmp-lex (x ∷ k) (y ∷ j) rest = ground (arith, key_cmp-lex k j rest)

-- Only equal keys are at the same place.
pub lex-same : (k j : List ℕ) → lex k j ≡ same → k ≡ j
unfolding lex
lex-same [] [] e = refl
lex-same [] (y ∷ j) e = cc
lex-same (x ∷ k) [] e = cc
lex-same (x ∷ k) (y ∷ j) e = ground (arith, lex-same k j)

pub lex_self : (k : List ℕ) → lex k k ≡ same
unfolding lex
lex_self [] = refl
lex_self (x ∷ k) = ground (arith, lex_self k)

-- `stbt_key_cmp` answers 0 for equal keys only.
pub key_cmp-same :
    (k j rest : List ℕ) → stbt_key_cmp k (length k) (j ++ rest) (length j) ≡ some same → k ≡ j
key_cmp-same k j rest e = lex-same k j (ground (arith, key_cmp-lex k j rest))
