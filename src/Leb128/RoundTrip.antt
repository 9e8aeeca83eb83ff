-- ===== src/Leb128/RoundTrip.antt =====
-- What is written is read back, and the fuel is enough.
use native.Mathlib.Nat.{div-add-mod, pow-suc}
use native.Mathlib.Numerals.{towards_suc}
use idris2_ouc.Base.{
  ℕ, zero, suc, ◌+◌, ◌*◌, ◌/◌, ◌%◌, ◌^◌, ◌≤◌, ◌<◌, ◌≡◌, ap, List, ◌∷◌, ◌++◌, some, bit_or, arith,
  length,
}
use idris2_ouc.Word.{IsU64}
use idris2_ouc.Word.Bits.{bit_or-shl}
use idris2_ouc.Leb128.{encode_leb128, parse_leb128_loop, parse_leb128}

top_bit : (g : ℕ) → g < 128 → bit_or g 0x80 ≡ g + 128
top_bit g h = bit_or-shl 7 g 1 h

-- One round of the parser on a last byte `w`, and on a group `g` with the top bit set.
final_group :
    (w low place : ℕ) (behind : List ℕ)
    → w < 128
    → place ≤ 63
    → low < 2 ^ place
    → IsU64 (low + w * 2 ^ place)
    → parse_leb128_loop (w ∷ behind) low place ≡ some (low + w * 2 ^ place, behind)
unfolding parse_leb128_loop
final_group w low place behind hw hs ha fits = ground (
  arith,
  ap (λ (t : ℕ). t * 2 ^ place) {x = w % 128} {y = w} (omega arith),
  bit_or-shl place low w ha,
)

earlier_group :
    (g low place : ℕ) (behind : List ℕ)
    → g < 128
    → place ≤ 63
    → low < 2 ^ place
    → IsU64 (low + g * 2 ^ place)
    → parse_leb128_loop ((g + 128) ∷ behind) low place
      ≡ parse_leb128_loop behind (low + g * 2 ^ place) (place + 7)
unfolding parse_leb128_loop
earlier_group g low place behind hg hs ha fits = ground (
  arith,
  ap (λ (t : ℕ). t * 2 ^ place) {x = (g + 128) % 128} {y = g} (omega arith),
  bit_or-shl place low g ha,
)

next_place : (s : ℕ) → 2 ^ (s + 7) ≡ 128 * 2 ^ s
next_place s = simp towards_suc (omega arith)

-- The lowest group of `w` and what is above it, both at bit `s`.
lowest_group : (w s : ℕ) → w % 128 * 2 ^ s + w / 128 * 2 ^ (s + 7) ≡ w * 2 ^ s
lowest_group w s = omega (
  arith,
  ap (λ (t : ℕ). t * 2 ^ s) (div-add-mod w 128),
  ap (λ (t : ℕ). w / 128 * t) (next_place s),
)

group_fits : (low g s : ℕ) → low < 2 ^ s → g < 128 → low + g * 2 ^ s < 2 ^ (s + 7)
group_fits low g s ha hg = ground (arith, next_place s, group_le g (2 ^ s) hg)
  where
    group_le : (g p : ℕ) → g < 128 → g * p + p ≤ 128 * p
    group_le g p h = grind arith

parse-encode_loop :
    (k w low place : ℕ) (behind : List ℕ)
    → w < 128 ^ suc k
    → place + 7 * k ≤ 63
    → low < 2 ^ place
    → IsU64 (low + w * 2 ^ place)
    → parse_leb128_loop (encode_leb128 (suc k) w ++ behind) low place
      ≡ some (low + w * 2 ^ place, behind)
unfolding encode_leb128
parse-encode_loop zero w low place behind hw hs ha fits =
    ground (arith, final_group w low place behind)
parse-encode_loop (suc k) w low place behind hw hs ha fits = ground (
  arith,
  final_group w low place behind,
  top_bit (w % 128),
  lowest_group w place,
  group_fits low (w % 128) place ha,
  earlier_group (w % 128) low place (encode_leb128 (suc k) (w / 128) ++ behind),
  parse-encode_loop k (w / 128) (low + w % 128 * 2 ^ place) (place + 7) behind
      (omega (arith, pow-suc 128 (suc k))),
)

-- Every uint64_t is read back as it was written, with ten bytes at most, and what stands behind it is
-- left.
pub parse-encode :
    (v : ℕ) (behind : List ℕ)
    → IsU64 v
    → parse_leb128 (encode_leb128 10 v ++ behind) ≡ some (v, behind)
unfolding parse_leb128
parse-encode v behind h =
    ground (arith, parse-encode_loop 9 v 0 0 behind (omega arith) (omega arith) (omega arith))

-- The same with the five bytes that a uint32_t has.
pub parse-encode_u32 :
    (v : ℕ) (behind : List ℕ)
    → v < 2 ^ 32
    → parse_leb128 (encode_leb128 5 v ++ behind) ≡ some (v, behind)
unfolding parse_leb128
parse-encode_u32 v behind h =
    ground (arith, parse-encode_loop 4 v 0 0 behind (omega arith) (omega arith) (omega arith))

pub length-encode_leb128 : (fuel v : ℕ) → length (encode_leb128 fuel v) ≤ fuel
unfolding encode_leb128
length-encode_leb128 zero v = omega arith
length-encode_leb128 (suc fuel) v = ground (arith, length-encode_leb128 fuel (v / 128))

pub one-le-length-encode : (fuel v : ℕ) → 1 ≤ length (encode_leb128 (suc fuel) v)
unfolding encode_leb128
one-le-length-encode fuel v = ground arith
