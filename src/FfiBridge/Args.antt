-- ===== src/FfiBridge/Args.antt =====
-- Arguments: what is set is read.
use idris2_ouc.Base.{
  ℕ, zero, suc, ◌<◌, ◌≡◌, refl, List, [], ◌∷◌, ◌&&◌, ltb, ◌==◌, if◌then◌else◌, length, set, get_or,
  replicate, arith, length-set,
}
use idris2_ouc.FfiBridge.{
  Channel, ic_ffi_get_arg, ic_ffi_c_set_arg, ic_ffi_c_get_result, ic_ffi_reset, ouc_get_arg_i32,
  ouc_c_set_arg_i32, ouc_reset_ffi, ouc_c_get_result_i32, sign_extend,
}

-- The C array has eight elements.
abbrev pub HasEight : Channel → Type 0
HasEight c = length c.args ≡ 8

pub get_or-set :
    (xs : List ℕ) (i j v d : ℕ)
    → j < length xs
    → get_or (set xs j v) i d ≡ (if i == j then v else get_or xs i d)
get_or-set [] i j v d h = absurd (omega arith)
get_or-set (x ∷ xs) zero zero v d h = ground arith
get_or-set (x ∷ xs) (suc i) zero v d h = ground arith
get_or-set (x ∷ xs) zero (suc j) v d h = ground arith
get_or-set (x ∷ xs) (suc i) (suc j) v d h = ground (arith, get_or-set xs i j v d (omega arith))

pub get_or-replicate : (n i : ℕ) → get_or {A = ℕ} (replicate n 0) i 0 ≡ 0
get_or-replicate zero i = refl
get_or-replicate (suc n) zero = refl
get_or-replicate (suc n) (suc i) = get_or-replicate n i

-- With an array of eight arguments, a call `ic_ffi_c_set_arg(j, v)` changes what Idris2 reads at `j` to `v`, if `j` is below 8, and
-- nothing else, neither another argument nor the result.
pub set_arg-get_arg :
    (i j v : ℕ) (c : Channel)
    → HasEight c
    → (ic_ffi_get_arg i (ic_ffi_c_set_arg j v c)
        ≡ (if ltb j 8 && i == j then v else ic_ffi_get_arg i c))
      × ((ic_ffi_c_get_result (ic_ffi_c_set_arg j v c) ≡ ic_ffi_c_get_result c)
          × HasEight (ic_ffi_c_set_arg j v c))
unfolding ic_ffi_get_arg ic_ffi_c_set_arg ic_ffi_c_get_result
set_arg-get_arg i j v c h = (
  ground (arith, get_or-set c.args i j v 0),
  (ground arith, ground (arith, length-set c.args j v)),
)

-- A call `ouc_c_set_arg_i32(j, v)` changes what Idris2 reads at `j` to the sign extension of `v`, if `j`
-- is below 8, and no other argument.
pub set_arg_i32-get_arg_i32 :
    (i j v : ℕ) (c : Channel)
    → HasEight c
    → (ouc_get_arg_i32 i (ouc_c_set_arg_i32 j v c)
        ≡ (if ltb j 8 && i == j then sign_extend v else ouc_get_arg_i32 i c))
      × HasEight (ouc_c_set_arg_i32 j v c)
unfolding ouc_get_arg_i32 ouc_c_set_arg_i32
set_arg_i32-get_arg_i32 i j v c h =
    (ground (arith, get_or-set c.args i j v 0), ground (arith, length-set c.args j v))

-- After a reset every argument and the result are 0, on both channels.
pub reset-zero :
    (i : ℕ) (c : Channel)
    → (ic_ffi_get_arg i (ic_ffi_reset c) ≡ 0)
      × ((ic_ffi_c_get_result (ic_ffi_reset c) ≡ 0)
          × ((ouc_get_arg_i32 i (ouc_reset_ffi c) ≡ 0)
              × (ouc_c_get_result_i32 (ouc_reset_ffi c) ≡ 0)))
unfolding ic_ffi_get_arg ic_ffi_reset ic_ffi_c_get_result ouc_get_arg_i32 ouc_reset_ffi
    ouc_c_get_result_i32 sign_extend
reset-zero i c =
    (ground (arith, get_or-replicate 8 i), (refl, (ground (arith, get_or-replicate 8 i), refl)))
