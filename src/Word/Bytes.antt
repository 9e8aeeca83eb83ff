-- ===== src/Word/Bytes.antt =====
-- Little-endian words: `write_u32`, `read_u32`, `write_u64` and `read_u64` of
-- lib/ic0/sqlite_stable.c. A buffer is the list of its bytes.
use idris2_ouc.Base.{
  ℕ, zero, suc, ◌+◌, ◌*◌, ◌/◌, ◌%◌, ◌^◌, ◌<◌, bit_or, ◌≡◌, ◌∙◌, refl, sym, ap, append-nil, arith,
  List, [], ◌∷◌, ◌++◌, length, get_or, All,
}
use idris2_ouc.Word.Bits.{bit_or-shl}

-- The bytes that `write_u32` stores.
unfoldable pub write_u32 : ℕ → List ℕ
write_u32 v = v % 256 ∷ v / 2 ^ 8 % 256 ∷ v / 2 ^ 16 % 256 ∷ v / 2 ^ 24 % 256 ∷ []

unfoldable pub read_u32 : List ℕ → ℕ
read_u32 b =
    bit_or (bit_or (bit_or (get_or b 0 0) (get_or b 1 0 * 2 ^ 8)) (get_or b 2 0 * 2 ^ 16))
      (get_or b 3 0 * 2 ^ 24)

-- `for (i = 0; i < 8; i++) buf[i] = (val >> (i * 8)) & 0xFF`, with `n` rounds left at `i`.
unfoldable pub write_u64_loop : ℕ → ℕ → ℕ → List ℕ
write_u64_loop zero i v = []
write_u64_loop (suc n) i v = v / 2 ^ (i * 8) % 256 ∷ write_u64_loop n (i + 1) v

unfoldable pub write_u64 : ℕ → List ℕ
unfolding write_u64_loop
write_u64 v = write_u64_loop 8 0 v

-- `for (i = 0; i < 8; i++) val |= (uint64_t)buf[i] << (i * 8)`.
unfoldable pub read_u64_loop : ℕ → ℕ → List ℕ → ℕ → ℕ
read_u64_loop zero i b v = v
read_u64_loop (suc n) i b v = read_u64_loop n (i + 1) b (bit_or v (get_or b i 0 * 2 ^ (i * 8)))

unfoldable pub read_u64 : List ℕ → ℕ
unfolding read_u64_loop
read_u64 b = read_u64_loop 8 0 b 0

pub length-write_u32 : (v : ℕ) → length (write_u32 v) ≡ 4
unfolding write_u32
length-write_u32 v = refl

pub length-write_u64 : (v : ℕ) → length (write_u64 v) ≡ 8
unfolding write_u64
length-write_u64 v = refl

pub write_u32-IsByte : (v : ℕ) → All (λ b. b < 256) (write_u32 v)
unfolding write_u32
write_u32-IsByte v = omega arith

-- Four bytes are read as the sum of their weights.
pub read_u32_sum :
    (a b c d : ℕ) (rest : List ℕ)
    → a < 256
    → b < 256
    → c < 256
    → d < 256
    → read_u32 (a ∷ b ∷ c ∷ d ∷ rest) ≡ a + b * 256 + c * 65536 + d * 16777216
unfolding read_u32
read_u32_sum a b c d rest ha hb hc hd = ground (
  arith,
  bit_or-shl 8 a b,
  bit_or-shl 16 (a + b * 256) c,
  bit_or-shl 24 (a + b * 256 + c * 65536) d,
)

-- Reading what was written gives the word back, whatever follows it.
pub read_u32-write_u32 : (v : ℕ) (rest : List ℕ) → v < 2 ^ 32 → read_u32 (write_u32 v ++ rest) ≡ v
unfolding write_u32
read_u32-write_u32 v rest h = omega (
  arith,
  read_u32_sum (v % 256) (v / 2 ^ 8 % 256) (v / 2 ^ 16 % 256) (v / 2 ^ 24 % 256) rest (omega arith)
      (omega arith) (omega arith) (omega arith),
)

pub read_u32-write_u32_end : (v : ℕ) → v < 2 ^ 32 → read_u32 (write_u32 v) ≡ v
read_u32-write_u32_end v h =
    ap read_u32 (sym (append-nil (write_u32 v))) ∙ read_u32-write_u32 v [] h

pub read_u64_sum :
    (a b c d e f g h : ℕ) (rest : List ℕ)
    → All (λ x. x < 256) (a ∷ b ∷ c ∷ d ∷ e ∷ f ∷ g ∷ h ∷ [])
    → read_u64 (a ∷ b ∷ c ∷ d ∷ e ∷ f ∷ g ∷ h ∷ rest)
      ≡ a + b * 2 ^ 8 + c * 2 ^ 16 + d * 2 ^ 24 + e * 2 ^ 32 + f * 2 ^ 40 + g * 2 ^ 48 + h * 2 ^ 56
unfolding read_u64
read_u64_sum a b c d e f g h rest bytes = ground (
  arith,
  bit_or-shl 0 0 a,
  bit_or-shl 8 a b,
  bit_or-shl 16 (a + b * 2 ^ 8) c,
  bit_or-shl 24 (a + b * 2 ^ 8 + c * 2 ^ 16) d,
  bit_or-shl 32 (a + b * 2 ^ 8 + c * 2 ^ 16 + d * 2 ^ 24) e,
  bit_or-shl 40 (a + b * 2 ^ 8 + c * 2 ^ 16 + d * 2 ^ 24 + e * 2 ^ 32) f,
  bit_or-shl 48 (a + b * 2 ^ 8 + c * 2 ^ 16 + d * 2 ^ 24 + e * 2 ^ 32 + f * 2 ^ 40) g,
  bit_or-shl 56 (a + b * 2 ^ 8 + c * 2 ^ 16 + d * 2 ^ 24 + e * 2 ^ 32 + f * 2 ^ 40 + g * 2 ^ 48) h,
)

pub read_u64-write_u64 : (v : ℕ) (rest : List ℕ) → v < 2 ^ 64 → read_u64 (write_u64 v ++ rest) ≡ v
unfolding write_u64
read_u64-write_u64 v rest h =
    read_u64_sum (v / 1 % 256) (v / 2 ^ 8 % 256) (v / 2 ^ 16 % 256) (v / 2 ^ 24 % 256)
      (v / 2 ^ 32 % 256) (v / 2 ^ 40 % 256) (v / 2 ^ 48 % 256) (v / 2 ^ 56 % 256) rest (omega arith)
    ∙ omega arith

pub read_u64-write_u64_end : (v : ℕ) → v < 2 ^ 64 → read_u64 (write_u64 v) ≡ v
read_u64-write_u64_end v h =
    ap read_u64 (sym (append-nil (write_u64 v))) ∙ read_u64-write_u64 v [] h
