-- ===== src/Handlers/Decimal.antt =====
-- The decimal digits are those of the number.
use native.Mathlib.Nat.{pow-suc}
use idris2_ouc.Base.{ℕ, zero, suc, ◌+◌, ◌-◌, ◌*◌, ◌/◌, ◌%◌, ◌^◌, ◌<◌, ◌≡◌, ap, List, [], ◌∷◌, arith}
use idris2_ouc.Word.{IsU64}
use idris2_ouc.Handlers.{digits_loop, decimal, last_digits}

-- The number that decimal digits stand for, behind the number `v`.
unfoldable pub value : List ℕ → ℕ → ℕ
value [] v = v
value (c ∷ cs) v = value cs (v * 10 + (c - 48))

digits_loop-value :
    (fuel id : ℕ) (acc : List ℕ) → id < 10 ^ fuel → value (digits_loop fuel id acc) 0 ≡ value acc id
unfolding digits_loop value
digits_loop-value zero id acc h = ap (value acc) {x = 0} {y = id} (omega arith)
digits_loop-value (suc fuel) id acc h = ground (
  arith,
  digits_loop-value fuel (id / 10) ((48 + id % 10) ∷ acc) (omega (arith, pow-suc 10 fuel)),
)

-- The digits that the handlers write for a 64-bit number are read as this number; 20 are enough.
pub value-decimal : (id : ℕ) → IsU64 id → value (decimal id) 0 ≡ id
unfolding decimal value
value-decimal id h = ground (arith, digits_loop-value 20 id [] (omega arith))

-- Below 1000 the digits that `submitProposal` writes are read as the id.
pub last_digits-value : (id : ℕ) → id < 1000 → value (last_digits id) 0 ≡ id
unfolding last_digits value
last_digits-value id h = ground arith
