-- ===== src/Idris/Calls.antt =====
-- What the Idris2 code reads of a call from lib/ic0/canister_entry.c.
use idris2_ouc.Base.{ℕ, zero, suc, ◌≡◌, refl, ap, [], ◌∷◌, Option, some, ◌>>=◌, arith, get_or}
use idris2_ouc.Word.{IsU32, u32}
use idris2_ouc.FfiBridge.{
  ouc_reset_ffi, ouc_c_set_arg_i32, ouc_get_arg_i32, ouc_set_result_i32, ouc_c_get_result_i32,
  sign_extend,
}
use idris2_ouc.Idris.{Machine, run_closure, call_idris2_2arg}

-- An Idris2 code that answers its argument `i`.
unfoldable pub answers_arg : {S : Type 0} → ℕ → Machine S → Option (Machine S)
answers_arg i m =
    some (record m { channel = ouc_set_result_i32 (ouc_get_arg_i32 i m.channel) m.channel })

u32-sign_extend : (w : ℕ) → IsU32 w → u32 (sign_extend w) ≡ w
unfolding sign_extend
u32-sign_extend w h = ground arith

zeros_behind :
    (i a b c r : ℕ)
    → ouc_get_arg_i32
        (suc (suc (suc i)))
        (record { args = a ∷ b ∷ c ∷ 0 ∷ 0 ∷ 0 ∷ 0 ∷ 0 ∷ []; result = r })
      ≡ 0
unfolding ouc_get_arg_i32 sign_extend
zeros_behind zero a b c r = refl
zeros_behind (suc zero) a b c r = refl
zeros_behind (suc (suc zero)) a b c r = refl
zeros_behind (suc (suc (suc zero))) a b c r = refl
zeros_behind (suc (suc (suc (suc zero)))) a b c r = refl
zeros_behind (suc (suc (suc (suc (suc i))))) a b c r = ground arith

-- The Idris2 code reads the command and the two arguments of the call, 32-bit words, and 0 in every
-- other place, whatever an earlier call has left in the channel: a code that answers its argument
-- `i` answers the word at `i`.
pub call_2arg-get_arg :
    {S : Type 0} (i cmd arg1 arg2 : ℕ) (m : Machine S)
    → IsU32 cmd
    → IsU32 arg1
    → IsU32 arg2
    → (call_idris2_2arg (answers_arg i) cmd arg1 arg2 m >>= λ r. some r.0)
      ≡ some (get_or (cmd ∷ arg1 ∷ arg2 ∷ []) i 0)
unfolding call_idris2_2arg run_closure answers_arg ouc_reset_ffi ouc_c_set_arg_i32 ouc_get_arg_i32
    ouc_set_result_i32 ouc_c_get_result_i32
call_2arg-get_arg zero cmd arg1 arg2 m h1 h2 h3 = ap some (u32-sign_extend cmd h1)
call_2arg-get_arg (suc zero) cmd arg1 arg2 m h1 h2 h3 = ap some (u32-sign_extend arg1 h2)
call_2arg-get_arg (suc (suc zero)) cmd arg1 arg2 m h1 h2 h3 = ap some (u32-sign_extend arg2 h3)
call_2arg-get_arg (suc (suc (suc i))) cmd arg1 arg2 m h1 h2 h3 =
    ap (λ v. some (u32 v)) (zeros_behind i cmd arg1 arg2 0)
