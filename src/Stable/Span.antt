-- ===== src/Stable/Span.antt =====
-- Runs of bytes in a memory that is a function from addresses to bytes.
use idris2_ouc.Base.{
  ℕ, zero, suc, ◌+◌, ◌-◌, ◌≤◌, ◌<◌, ◌≡◌, ◌∙◌, refl, ap, ap₂, ◌⊎◌, List, [], ◌∷◌, ◌++◌, ◌&&◌, arith,
  leb, ltb, if◌then◌else◌, length, get_or, take,
}

-- The `n` bytes from address `o` on.
abbrev pub bytes : (ℕ → ℕ) → ℕ → ℕ → List ℕ
bytes f o zero = []
bytes f o (suc n) = f o ∷ bytes f (o + 1) n

-- The memory after `bs` has been written at `o`.
unfoldable pub patch : ℕ → List ℕ → (ℕ → ℕ) → ℕ → ℕ
patch o bs f a = if leb o a && ltb (a - o) (length bs) then get_or bs (a - o) 0 else f a

pub length-bytes : (f : ℕ → ℕ) (o n : ℕ) → length (bytes f o n) ≡ n
length-bytes f o zero = refl
length-bytes f o (suc n) = ap suc (length-bytes f (o + 1) n)

pub bytes_congr :
    (f g : ℕ → ℕ) (o n : ℕ) → ((a : ℕ) → o ≤ a → a < o + n → f a ≡ g a) → bytes f o n ≡ bytes g o n
bytes_congr f g o zero h = refl
bytes_congr f g o (suc n) h =
    ap₂ ◌∷◌ (h o (omega arith) (omega arith))
      (bytes_congr f g (o + 1) n (λ a p q. h a (omega arith) (omega arith)))

-- A run that the write does not meet is kept.
pub bytes-patch_apart :
    (f : ℕ → ℕ) (o : ℕ) (bs : List ℕ) (a n : ℕ)
    → ((a + n ≤ o) ⊎ (o + length bs ≤ a))
    → bytes (patch o bs f) a n ≡ bytes f a n
unfolding patch
bytes-patch_apart f o bs a n apart =
    bytes_congr (patch o bs f) f a n (λ x p q. unfold patch in ground arith)

get_or-bytes :
    (f : ℕ → ℕ) (bs : List ℕ) (o : ℕ)
    → ((i : ℕ) → i < length bs → f (o + i) ≡ get_or bs i 0)
    → bytes f o (length bs) ≡ bs
get_or-bytes f [] o h = refl
get_or-bytes f (b ∷ bs) o h =
    ap₂ ◌∷◌ (ap f (omega arith) ∙ h 0 (omega arith))
      (get_or-bytes f bs (o + 1) (λ i p. ap f (omega arith) ∙ h (suc i) (omega arith)))

patch-inside :
    (f : ℕ → ℕ) (o : ℕ) (bs : List ℕ) (i : ℕ) → i < length bs → patch o bs f (o + i) ≡ get_or bs i 0
unfolding patch
patch-inside f o bs i p =
    ground (arith, ap (λ k. get_or bs k 0) {x = o + i - o} {y = i} (omega arith))

-- The written run is read back.
pub bytes-patch_self : (f : ℕ → ℕ) (o : ℕ) (bs : List ℕ) → bytes (patch o bs f) o (length bs) ≡ bs
bytes-patch_self f o bs = get_or-bytes (patch o bs f) bs o (patch-inside f o bs)

-- A run splits where one likes.
pub bytes-append : (f : ℕ → ℕ) (o i j : ℕ) → bytes f o (i + j) ≡ bytes f o i ++ bytes f (o + i) j
bytes-append f o zero j = ap₂ (λ a n. bytes f a n) (omega arith) (omega arith)
bytes-append f o (suc i) j =
    ap (λ n. bytes f o n) {x = suc i + j} {y = suc (i + j)} (omega arith)
    ∙ ap (λ r. f o ∷ r)
        (bytes-append f (o + 1) i j ∙ ap (λ a. bytes f (o + 1) i ++ bytes f a j) (omega arith))

-- A shorter run is a prefix.
pub take-bytes : (f : ℕ → ℕ) (o n l : ℕ) → n ≤ l → take n (bytes f o l) ≡ bytes f o n
take-bytes f o zero l h = refl
take-bytes f o (suc n) zero h = absurd (omega arith)
take-bytes f o (suc n) (suc l) h = ap (λ r. f o ∷ r) (take-bytes f (o + 1) n l (omega arith))
