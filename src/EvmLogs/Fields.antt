-- ===== src/EvmLogs/Fields.antt =====
-- The search for the fields of a log in lib/ic0/canister_entry.c, on a log in the format that its
-- comment gives.
use idris2_ouc.Base.{
  ℕ, ◌<◌, ◌≡◌, ◌≢◌, refl, List, [], ◌∷◌, ◌++◌, some, length, Bool, true, not, ◌&&◌, All, arith,
}
use idris2_ouc.Base.Split.{drop-append}
use idris2_ouc.EvmLogs.{begins, find_after, until_quote}

-- The needle stands at no place of `xs`, with `bs` behind it.
unfoldable pub misses : List ℕ → List ℕ → List ℕ → Bool
misses needle [] bs = true
misses needle (x ∷ xs) bs = not (begins needle (x ∷ (xs ++ bs))) && misses needle xs bs

pub skip_lem :
    (k : ℕ) (needle xs bs : List ℕ)
    → misses needle xs bs ≡ true
    → find_after k needle (xs ++ bs) ≡ find_after k needle bs
unfolding misses find_after
skip_lem k needle [] bs h = refl
skip_lem k needle (x ∷ xs) bs h = ground (arith, skip_lem k needle xs bs)

begins_self : (needle bs : List ℕ) → begins needle (needle ++ bs) ≡ true
unfolding begins
begins_self [] bs = refl
begins_self (c ∷ needle) bs = ground (arith, begins_self needle bs)

pub found_lem :
    (k c : ℕ) (needle bs : List ℕ)
    → k < length (c ∷ needle ++ bs)
    → find_after k (c ∷ needle) (c ∷ needle ++ bs) ≡ some bs
unfolding find_after
found_lem k c needle bs h = ground (arith, begins_self (c ∷ needle) bs, drop-append needle bs)

-- A text without the needle's second character, and a quotation mark behind it.
pub misses_plain :
    (c d : ℕ) (needle xs bs : List ℕ)
    → All (λ x. x ≢ d) xs
    → d ≢ b'"'
    → misses (c ∷ d ∷ needle) xs (b'"' ∷ bs) ≡ true
unfolding misses begins
misses_plain c d needle [] bs h q = refl
misses_plain c d needle (x ∷ []) bs h q = ground arith
misses_plain c d needle (x ∷ y ∷ xs) bs h q =
    ground (arith, misses_plain c d needle (y ∷ xs) bs h.1 q)

pub until_quote-append :
    (xs bs : List ℕ) → All (λ x. x ≢ b'"') xs → until_quote (xs ++ (b'"' ∷ bs)) ≡ xs
unfolding until_quote
until_quote-append [] bs h = refl
until_quote-append (x ∷ xs) bs h = ground (arith, until_quote-append xs bs h.1)

pub until_quote-All : (xs : List ℕ) → All (λ x. x ≢ b'"') xs → until_quote xs ≡ xs
unfolding until_quote
until_quote-All [] h = refl
until_quote-All (x ∷ xs) h = ground (arith, until_quote-All xs h.1)
