-- ===== src/EvmLogs/Hex.antt =====
-- Hexadecimal numbers: the ones that lib/ic0/canister_entry.c writes are the ones that it reads.
use native.Mathlib.Nat.{pow-suc}
use idris2_ouc.Base.{
  ℕ, zero, suc, ◌+◌, ◌*◌, ◌/◌, ◌%◌, ◌^◌, ◌<◌, ◌≡◌, ◌∙◌, refl, ap, List, [], ◌∷◌, some, bit_or,
  arith,
}
use idris2_ouc.Word.{IsU64, u64}
use idris2_ouc.Word.Bits.{bit_or-shl}
use idris2_ouc.EvmLogs.{hex_digit, hex_loop, hex_text, hex_value, parse_hex_loop, parse_hex_uint64}

hex_value-digit : (d : ℕ) → d < 16 → hex_value (hex_digit d) ≡ some d
unfolding hex_value hex_digit
hex_value-digit d h = ground arith

-- One digit is shifted in.
digit_in :
    (d v : ℕ) (rest : List ℕ)
    → d < 16
    → v * 16 + d < 2 ^ 64
    → parse_hex_loop (hex_digit d ∷ rest) v ≡ parse_hex_loop rest (v * 16 + d)
unfolding parse_hex_loop
digit_in d v rest h fits =
    rw (parse_hex_loop, hex_value-digit d h)
      (ap (parse_hex_loop rest) (
        ap (bit_or d) {x = u64 (v * 16)} {y = v * 2 ^ 4} (omega arith)
        ∙ bit_or-shl 4 d v (omega arith)
        ∙ omega arith))

-- The digits in front of `acc` put the number in front.
parse-hex_loop :
    (fuel n : ℕ) (acc : List ℕ)
    → n < 16 ^ fuel
    → n < 2 ^ 64
    → parse_hex_loop (hex_loop fuel n acc) 0 ≡ parse_hex_loop acc n
unfolding hex_loop
parse-hex_loop zero n acc h fits = ap (parse_hex_loop acc) {x = 0} {y = n} (omega arith)
parse-hex_loop (suc fuel) n acc h fits = ground (
  arith,
  parse-hex_loop fuel (n / 16) (hex_digit (n % 16) ∷ acc) (omega (arith, pow-suc 16 fuel))
      (omega arith),
  digit_in (n % 16) (n / 16) acc (omega arith) (omega arith),
  ap (parse_hex_loop acc) {x = n / 16 * 16 + n % 16} {y = n} (omega arith),
)

prefixed : (hex : List ℕ) → parse_hex_uint64 (b'0' ∷ b'x' ∷ hex) ≡ parse_hex_loop hex 0
unfolding parse_hex_uint64
prefixed hex = ground arith

text_suc : (n : ℕ) → hex_text (suc n) ≡ hex_loop 16 (suc n) []
unfolding hex_text
text_suc n = ground arith

-- Behind the 0x that the request writes in front of them, the digits of a 64-bit number are read as
-- this number; 16 are enough.
pub parse-hex_text : (n : ℕ) → IsU64 n → parse_hex_uint64 (b'0' ∷ b'x' ∷ hex_text n) ≡ n
unfolding parse_hex_loop
parse-hex_text zero h = prefixed (hex_text 0) ∙ (unfold hex_text parse_hex_loop hex_value in refl)
parse-hex_text (suc n) h =
    prefixed (hex_text (suc n))
    ∙ ap (λ t. parse_hex_loop t 0) (text_suc n)
    ∙ parse-hex_loop 16 (suc n) [] (omega arith) h
