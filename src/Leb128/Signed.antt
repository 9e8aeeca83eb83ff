-- ===== src/Leb128/Signed.antt =====
-- `encode_leb128_signed` of lib/ic0: what is written is the number in signed LEB128, and ten rounds
-- are enough.
use native.Mathlib.Nat.{pow-suc}
use idris2_ouc.Base.{
  ℕ, zero, suc, ◌+◌, ◌*◌, ◌/◌, ◌%◌, ◌^◌, ◌≤◌, ◌<◌, ◌≡◌, ◌∙◌, List, [], ◌∷◌, bit_or, arith, ltb,
  ◌==◌, if◌then◌else◌, ◌⊎◌, inl, inr, Bool-cases, true, Bool, ◌&&◌, ◌||◌, not,
}
use idris2_ouc.Word.{IsU64, u64}
use idris2_ouc.Word.Bits.{bit_or-shl}
use idris2_ouc.Leb128.{shr7, encode_leb128_signed}

-- The number that bytes of signed LEB128 stand for, as a 64-bit word in two's complement: a byte with
-- the top bit is followed by more, and bit 6 of the last byte is the sign.
unfoldable pub signed_value : List ℕ → ℕ
signed_value [] = 0
signed_value (b ∷ bs) =
    let more = signed_value bs in
    if ltb b 64
    then b
    else if ltb b 128
    then u64 (b + 18446744073709551488)
    else u64 (b + 18446744073709551488 + 128 * more)

-- Numbers that `k + 1` bytes hold: from -64 * 128 ^ k up to 64 * 128 ^ k.
abbrev Fits : ℕ → ℕ → Type 0
Fits k v = (v < 64 * 128 ^ k) ⊎ (18446744073709551616 ≤ v + 64 * 128 ^ k)

top_bit : (g : ℕ) → g < 128 → bit_or g 0x80 ≡ g + 128
top_bit g h = bit_or-shl 7 g 1 h

shift_back : (v : ℕ) → IsU64 v → u64 (v % 128 + 128 * shr7 v) ≡ v
unfolding shr7
shift_back v h = ground arith

last_byte :
    (v : ℕ)
    → IsU64 v
    → (shr7 v == 0 && v % 128 / 64 % 2 == 0
        || shr7 v == 18446744073709551615 && not (v % 128 / 64 % 2 == 0))
      ≡ true
    → signed_value (v % 128 ∷ []) ≡ v
unfolding shr7 signed_value
last_byte v h e = ground arith

more_byte :
    (g w : ℕ) (bs : List ℕ)
    → g < 128
    → signed_value bs ≡ w
    → signed_value (bit_or g 0x80 ∷ bs) ≡ u64 (g + 128 * w)
unfolding signed_value
more_byte g w bs h e = rw (top_bit g h, e) (ground arith)

-- Whether the loop stops at this byte.
stops : ℕ → Bool
stops v =
    shr7 v == 0 && v % 128 / 64 % 2 == 0
    || shr7 v == 18446744073709551615 && not (v % 128 / 64 % 2 == 0)

stops_short : (v : ℕ) → IsU64 v → Fits 0 v → stops v ≡ true
unfolding shr7 stops
stops_short v h f = ground arith

Fits-shr7 : (k v : ℕ) → IsU64 v → Fits (suc k) v → Fits k (shr7 v)
unfolding shr7
Fits-shr7 k v h f = ground (arith, pow-suc 128 k)

IsU64-shr7 : (v : ℕ) → IsU64 v → IsU64 (shr7 v)
unfolding shr7
IsU64-shr7 v h = ground arith

value_fuel : (k v : ℕ) → IsU64 v → Fits k v → signed_value (encode_leb128_signed (suc k) v) ≡ v
unfolding encode_leb128_signed stops
value_fuel zero v h f = rw (stops_short v h f) (last_byte v h (stops_short v h f))
value_fuel (suc k) v h f = elim (Bool-cases (stops v)) [
  | inl c ↦ rw c (last_byte v h c)
  | inr c ↦ rw c (
      more_byte (v % 128) (shr7 v) (encode_leb128_signed (suc k) (shr7 v)) (omega arith)
        (value_fuel k (shr7 v) (IsU64-shr7 v h) (Fits-shr7 k v h f))
      ∙ shift_back v h)
]

-- The bytes that `encode_leb128_signed` writes for an int64_t stand for it in signed LEB128; ten
-- rounds of its loop are enough.
pub value-encode_signed : (v : ℕ) → IsU64 v → signed_value (encode_leb128_signed 10 v) ≡ v
value-encode_signed v h = value_fuel 9 v h (ground arith)
