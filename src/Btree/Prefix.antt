-- ===== src/Btree/Prefix.antt =====
-- Keys with a prefix, and that they stand next to each other in a sorted list: what the scan of
-- lib/ic0/stable_btree.c relies on.
use idris2_ouc.Base.{
  ℕ, ◌≤◌, ◌<◌, ◌≡◌, refl, List, [], ◌∷◌, ◌++◌, Bool, true, false, some, ◌==◌, ◌&&◌, if◌then◌else◌,
  length, arith,
}
use idris2_ouc.Btree.{below, above, stbt_key_cmp, cmp_bytes}
use idris2_ouc.Btree.Order.{lex}
use idris2_ouc.Btree.Entries.{Entry, IsSorted, IsBelow}
use idris2_ouc.Btree.Scan.{has_prefix_loop, stbt_has_prefix}

-- Whether a key starts with a prefix.
unfoldable pub starts : List ℕ → List ℕ → Bool
starts [] k = true
starts (y ∷ p) [] = false
starts (y ∷ p) (x ∷ k) = x == y && starts p k

-- The entries whose keys start with a prefix.
unfoldable pub matching : List ℕ → List Entry → List Entry
matching p [] = []
matching p ((k, v) ∷ es) = let more = matching p es in if starts p k then (k, v) ∷ more else more

-- The entries up to the first one whose key does not start with the prefix.
unfoldable pub run : List ℕ → List Entry → List Entry
run p [] = []
run p ((k, v) ∷ es) = let more = run p es in if starts p k then (k, v) ∷ more else []

has_prefix_loop-starts :
    (k p rest : List ℕ)
    → length p ≤ length k
    → has_prefix_loop (length p) (k ++ rest) p ≡ some (starts p k)
unfolding has_prefix_loop starts
has_prefix_loop-starts k [] rest h = refl
has_prefix_loop-starts [] (y ∷ p) rest h = absurd (omega arith)
has_prefix_loop-starts (x ∷ k) (y ∷ p) rest h = ground (arith, has_prefix_loop-starts k p rest)

starts_short : (k p : List ℕ) → length k < length p → starts p k ≡ false
unfolding starts
starts_short k [] h = absurd (omega arith)
starts_short [] (y ∷ p) h = refl
starts_short (x ∷ k) (y ∷ p) h = ground (arith, starts_short k p)

-- `stbt_has_prefix` of a key that stands in a page, with anything behind it.
pub has_prefix-starts :
    (k p rest : List ℕ) → stbt_has_prefix (k ++ rest) (length k) p (length p) ≡ some (starts p k)
unfolding stbt_has_prefix
has_prefix-starts k p rest = ground (arith, has_prefix_loop-starts k p rest, starts_short k p)

-- `stbt_key_cmp` with the key of the page on the left.
pub key_cmp-lex_left :
    (k j rest : List ℕ) → stbt_key_cmp (k ++ rest) (length k) j (length j) ≡ some (lex k j)
unfolding stbt_key_cmp cmp_bytes lex
key_cmp-lex_left [] [] rest = ground arith
key_cmp-lex_left [] (y ∷ j) rest = ground arith
key_cmp-lex_left (x ∷ k) [] rest = ground arith
key_cmp-lex_left (x ∷ k) (y ∷ j) rest = ground (arith, key_cmp-lex_left k j rest)

-- Between a prefix and a key that starts with it there are only such keys.
starts_between :
    (p j l : List ℕ) → lex j p ≡ above → lex j l ≡ below → starts p l ≡ true → starts p j ≡ true
unfolding lex starts
starts_between [] j l h g s = refl
starts_between (y ∷ p) [] l h g s = cc
starts_between (y ∷ p) (x ∷ j) [] h g s = cc
starts_between (y ∷ p) (x ∷ j) (z ∷ l) h g s = ground (arith, starts_between p j l)

-- A key that follows one with the prefix and does not have it comes after the prefix.
starts_after :
    (p k j : List ℕ) → starts p k ≡ true → lex k j ≡ below → starts p j ≡ false → lex j p ≡ above
unfolding lex starts
starts_after [] k j s h n = cc
starts_after (y ∷ p) [] j s h n = cc
starts_after (y ∷ p) (x ∷ k) [] s h n = cc
starts_after (y ∷ p) (x ∷ k) (z ∷ j) s h n = ground (arith, starts_after p k j)

-- Behind a key that comes after the prefix and does not have it, no key has it.
pub matching_passed :
    (p k : List ℕ) (es : List Entry)
    → lex k p ≡ above
    → starts p k ≡ false
    → IsBelow k es
    → matching p es ≡ []
unfolding matching
matching_passed p k [] h n b = refl
matching_passed p k ((j, v) ∷ es) h n b =
    ground (arith, starts_between p k j, matching_passed p k es)

run-matching_after :
    (p k : List ℕ) (es : List Entry)
    → starts p k ≡ true
    → IsBelow k es
    → IsSorted es
    → run p es ≡ matching p es
unfolding run matching
run-matching_after p k [] s b h = refl
run-matching_after p k ((j, v) ∷ es) s b h = ground (
  arith,
  starts_after p k j,
  matching_passed p j es,
  run-matching_after p j es,
  run-matching_after p k es,
)

-- In a sorted list that begins with a match the matches are one run.
pub run-matching :
    (p k v : List ℕ) (es : List Entry)
    → starts p k ≡ true
    → IsSorted ((k, v) ∷ es)
    → run p ((k, v) ∷ es) ≡ matching p ((k, v) ∷ es)
unfolding run matching
run-matching p k v es s h = ground (arith, run-matching_after p k es)
