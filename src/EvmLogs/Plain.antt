-- ===== src/EvmLogs/Plain.antt =====
-- Texts without the characters that the scans of lib/ic0/canister_entry.c look for.
use idris2_ouc.Base.{
  ℕ, zero, suc, ◌/◌, ◌%◌, ◌<◌, ◌≡◌, ◌≢◌, List, [], ◌∷◌, false, All, arith, Bool-cases, inl, inr,
  ◌==◌,
}
use idris2_ouc.EvmLogs.{hex_text, hex_loop, hex_digit}
use idris2_ouc.EvmLogs.Objects.{IsFlat}

-- Characters that stand in hexadecimal texts, and more: no quotation mark, no brace, no `l`, no `o`.
abbrev pub IsPlain : List ℕ → Type 0
IsPlain = All (λ x. (x ≢ b'"') × ((x ≢ b'{') × ((x ≢ b'}') × ((x ≢ b'l') × (x ≢ b'o')))))

All-imp : {P Q : ℕ → Type 0} (xs : List ℕ) → ((x : ℕ) → P x → Q x) → All P xs → All Q xs
All-imp [] f h = tt
All-imp (x ∷ xs) f h = (f x h.0, All-imp xs f h.1)

hex_loop-All :
    (P : ℕ → Type 0) (fuel n : ℕ) (acc : List ℕ)
    → ((d : ℕ) → d < 16 → P (hex_digit d))
    → All P acc
    → All P (hex_loop fuel n acc)
unfolding hex_loop
hex_loop-All P zero n acc f h = h
hex_loop-All P (suc fuel) n acc f h = elim (Bool-cases (n == 0)) [
  | inl c ↦ rw c h
  | inr c ↦
      rw c (hex_loop-All P fuel (n / 16) (hex_digit (n % 16) ∷ acc) f (f (n % 16) (omega arith), h))
]

pub hex_text-IsPlain : (n : ℕ) → IsPlain (hex_text n)
unfolding hex_text
hex_text-IsPlain zero = (ground arith, tt)
hex_text-IsPlain (suc n) = rw text (
    hex_loop-All (λ x. (x ≢ b'"') × ((x ≢ b'{') × ((x ≢ b'}') × ((x ≢ b'l') × (x ≢ b'o'))))) 16
      (suc n) [] (λ d h. unfold hex_digit in ground arith) tt)
  where
    text : (suc n == 0) ≡ false
    text = ground arith

-- In plain text there is no field.
pub no_l : (xs : List ℕ) → IsPlain xs → All (λ x. x ≢ b'l') xs
no_l xs h = All-imp xs (λ x q. q.1.1.1.0) h

pub no_o : (xs : List ℕ) → IsPlain xs → All (λ x. x ≢ b'o') xs
no_o xs h = All-imp xs (λ x q. q.1.1.1.1) h

pub no_quote : (xs : List ℕ) → IsPlain xs → All (λ x. x ≢ b'"') xs
no_quote xs h = All-imp xs (λ x q. q.0) h

-- Nor is there a brace.
pub IsPlain-IsFlat : (xs : List ℕ) → IsPlain xs → IsFlat xs
IsPlain-IsFlat xs h = All-imp xs (λ x q. (q.1.0, q.1.1.0)) h
