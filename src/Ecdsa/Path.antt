-- ===== src/Ecdsa/Path.antt =====
-- The derivation path of lib/ic0/threshold_ecdsa.c: a segment that is set is the one that is sent, and
-- the others stay.
use idris2_ouc.Base.{
  ℕ, zero, suc, ◌+◌, ◌*◌, ◌^◌, ◌≤◌, ◌<◌, ◌≡◌, ◌∙◌, refl, sym, ap, List, [], ◌∷◌, ◌++◌, length, take,
  drop, get_or, ltb, ◌==◌, if◌then◌else◌, arith,
}
use idris2_ouc.Word.Bytes.{write_u32, read_u32, read_u32-write_u32, length-write_u32}
use idris2_ouc.Base.Split.{drop-append}
use idris2_ouc.Base.{◌≢◌, ◌⊎◌, inl, inr, length-take, ◌&&◌}
use idris2_ouc.Ecdsa.{Ecdsa, ouc_ecdsa_set_derivation_segment}

-- Segment `j` of the path.
unfoldable pub segment : ℕ → Ecdsa → ℕ
segment j s = read_u32 (drop (j * 4) s.derivation_path)

-- Elements outside the part from `n` to `m` that `ws` is written over.
get_or-over_start :
    (ws xs : List ℕ) (i : ℕ)
    → length ws ≤ length xs
    → length ws ≤ i
    → get_or (ws ++ drop (length ws) xs) i 0 ≡ get_or xs i 0
get_or-over_start [] xs i h le = refl
get_or-over_start (w ∷ ws) [] i h le = absurd (omega arith)
get_or-over_start (w ∷ ws) (x ∷ xs) zero h le = absurd (omega arith)
get_or-over_start (w ∷ ws) (x ∷ xs) (suc i) h le =
    get_or-over_start ws xs i (omega arith) (omega arith)

get_or-over :
    (n m : ℕ) (ws xs : List ℕ) (i : ℕ)
    → m ≡ n + length ws
    → m ≤ length xs
    → ((i < n) ⊎ (m ≤ i))
    → get_or (take n xs ++ (ws ++ drop m xs)) i 0 ≡ get_or xs i 0
get_or-over zero m ws xs i e h (inl lt) = absurd (omega arith)
get_or-over zero m ws xs i e h (inr le) =
    ap (λ k. get_or (ws ++ drop k xs) i 0) {x = m} {y = length ws} (omega arith)
    ∙ get_or-over_start ws xs i (omega arith) (omega arith)
get_or-over (suc n) zero ws xs i e h out = absurd (omega arith)
get_or-over (suc n) (suc m) ws [] i e h out = absurd (omega arith)
get_or-over (suc n) (suc m) ws (x ∷ xs) zero e h out = refl
get_or-over (suc n) (suc m) ws (x ∷ xs) (suc i) e h out =
    get_or-over n m ws xs i (omega arith) (omega arith) (ground arith)

get_or-drop : (n : ℕ) (xs : List ℕ) (i : ℕ) → get_or (drop n xs) i 0 ≡ get_or xs (n + i) 0
get_or-drop zero xs i = ap (λ k. get_or xs k 0) (omega arith)
get_or-drop (suc n) [] i = refl
get_or-drop (suc n) (x ∷ xs) i =
    get_or-drop n xs i
    ∙ ap (λ k. get_or (x ∷ xs) k 0) {x = suc (n + i)} {y = suc n + i} (omega arith)

-- A word is its four bytes.
read_u32_congr :
    (xs ys : List ℕ) → ((r : ℕ) → r < 4 → get_or xs r 0 ≡ get_or ys r 0) → read_u32 xs ≡ read_u32 ys
unfolding read_u32
read_u32_congr xs ys h =
    ground (arith, h 0 (omega arith), h 1 (omega arith), h 2 (omega arith), h 3 (omega arith))

segment_other :
    (i j value : ℕ) (path : List ℕ)
    → length path ≡ 128
    → i < 5
    → j ≢ i
    → read_u32 (drop (j * 4) (take (i * 4) path ++ (write_u32 value ++ drop (i * 4 + 4) path)))
      ≡ read_u32 (drop (j * 4) path)
segment_other i j value path h hi ne =
    read_u32_congr (drop (j * 4) (take (i * 4) path ++ (write_u32 value ++ drop (i * 4 + 4) path)))
      (drop (j * 4) path)
      (λ r hr.
        get_or-drop (j * 4) (take (i * 4) path ++ (write_u32 value ++ drop (i * 4 + 4) path)) r
        ∙ get_or-over (i * 4) (i * 4 + 4) (write_u32 value) path (j * 4 + r)
            (omega (arith, length-write_u32 value)) (omega arith) (apart r hr)
        ∙ sym (get_or-drop (j * 4) path r))
  where
    apart : (r : ℕ) → r < 4 → (j * 4 + r < i * 4) ⊎ (i * 4 + 4 ≤ j * 4 + r)
    apart r hr = ground arith

segment_self :
    (i value : ℕ) (path : List ℕ)
    → length path ≡ 128
    → i < 5
    → value < 2 ^ 32
    → read_u32 (drop (i * 4) (take (i * 4) path ++ (write_u32 value ++ drop (i * 4 + 4) path)))
      ≡ value
segment_self i value path h hi hv =
    ap read_u32 (
      ap (λ k. drop k (take (i * 4) path ++ (write_u32 value ++ drop (i * 4 + 4) path))) {x = i * 4}
        {y = length (take (i * 4) path)} (omega (arith, length-take (i * 4) path))
      ∙ drop-append (take (i * 4) path) (write_u32 value ++ drop (i * 4 + 4) path))
    ∙ read_u32-write_u32 value (drop (i * 4 + 4) path) hv

-- Setting segment `i` of the path to a 32-bit value changes segment `i` to the value, if `i` is below
-- 5, and no other segment. (The path's buffer has 128 bytes.)
pub set_segment-segment :
    (i j value : ℕ) (s : Ecdsa)
    → length s.derivation_path ≡ 128
    → value < 2 ^ 32
    → segment j (ouc_ecdsa_set_derivation_segment i value s)
      ≡ (if ltb i 5 && j == i then value else segment j s)
unfolding segment ouc_ecdsa_set_derivation_segment
set_segment-segment i j value s h hv =
    ground
      (arith, segment_other i j value s.derivation_path h, segment_self i value s.derivation_path h)
