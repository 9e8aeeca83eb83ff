-- ===== src/Word/Bits.antt =====
-- `|` of numbers with no common bit is their sum: the C code puts words together from bytes so.
use Prim.Native.Nat.{digits, bit_or-bitwise}
use native.Mathlib.Nat.{pow-suc}
use idris2_ouc.Base.{
  ℕ, zero, suc, ◌+◌, ◌*◌, ◌/◌, ◌%◌, ◌^◌, ◌≤◌, ◌<◌, max, bit_or, ◌≡◌, refl, ap, arith,
}

-- More fuel than the first number does not change the digits.
or_digits : ℕ → ℕ → ℕ → ℕ
or_digits n a b = digits (λ y. y) max n a b

or_digits_fuel : (k l x y : ℕ) → x ≤ k → x ≤ l → or_digits k x y ≡ or_digits l x y
unfolding or_digits
or_digits_fuel zero zero x y p q = refl
or_digits_fuel zero (suc l) zero y p q = refl
or_digits_fuel zero (suc l) (suc x) y p q = absurd (omega arith)
or_digits_fuel (suc k) zero zero y p q = refl
or_digits_fuel (suc k) zero (suc x) y p q = absurd (omega arith)
or_digits_fuel (suc k) (suc l) zero y p q = refl
or_digits_fuel (suc k) (suc l) (suc x) y p q =
    omega (arith, or_digits_fuel k l (suc x / 2) (y / 2) (omega arith) (omega arith))

pub zero-bit_or : (b : ℕ) → bit_or 0 b ≡ b
zero-bit_or b = bit_or-bitwise 0 b

-- The lowest bit apart.
pub bit_or-halves : (a b : ℕ) → bit_or a b ≡ bit_or (a / 2) (b / 2) * 2 + max (a % 2) (b % 2)
unfolding or_digits
bit_or-halves zero b = omega (arith, zero-bit_or b, zero-bit_or (b / 2))
bit_or-halves (suc a) b = omega (
  arith,
  bit_or-bitwise (suc a) b,
  bit_or-bitwise (suc a / 2) (b / 2),
  or_digits_fuel a (suc a / 2) (suc a / 2) (b / 2) (omega arith) (omega arith),
)

double_pow : (q k : ℕ) → q * 2 ^ suc k ≡ 2 * (q * 2 ^ k)
double_pow q k = omega (arith, ap (λ (t : ℕ). q * t) (pow-suc 2 k))

-- `r | (q << k)` for `r` of `k` bits.
pub bit_or-shl : (k r q : ℕ) → r < 2 ^ k → bit_or r (q * 2 ^ k) ≡ r + q * 2 ^ k
bit_or-shl zero zero q h = omega (arith, zero-bit_or (q * 2 ^ 0))
bit_or-shl zero (suc r) q h = absurd (omega arith)
bit_or-shl (suc k) r q h = ground (
  arith,
  bit_or-halves r (q * 2 ^ suc k),
  double_pow q k,
  bit_or-shl k (r / 2) q (omega (arith, pow-suc 2 k)),
)
