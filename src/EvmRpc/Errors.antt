-- ===== src/EvmRpc/Errors.antt =====
-- The classification of errors in lib/ic0/canister_entry.c: which error codes are permanent.
use native.Mathlib.Nat.{pow-suc}
use idris2_ouc.Base.{
  ◌^◌, Bool-cases, inl, inr, ℕ, zero, suc, ◌+◌, ◌-◌, ◌*◌, ◌/◌, ◌%◌, ◌≤◌, ◌<◌, ◌≡◌, ◌∙◌, refl, ap,
  List, [], ◌∷◌, ◌++◌, some, ◌⊎◌, ◌≢◌, Bool, true, false, ◌||◌, ◌==◌, if◌then◌else◌, length, drop,
  arith, All, length-append,
}
use idris2_ouc.EvmLogs.{find_after}
use idris2_ouc.EvmLogs.Fields.{misses, skip_lem, found_lem}
use idris2_ouc.Handlers.{digits_loop, decimal}
use idris2_ouc.Handlers.Decimal.{value, value-decimal}
use idris2_ouc.EvmRpc.{error_field, code_field, code_loop, is_permanent, check_rpc_error}

abbrev IsDigits : List ℕ → Type 0
IsDigits = All (λ c. (48 ≤ c) × (c ≤ 57))

value_grows : (ds : List ℕ) (v : ℕ) → v ≤ value ds v
unfolding value
value_grows [] v = omega arith
value_grows (d ∷ ds) v = omega (arith, value_grows ds (v * 10 + (d - 48)))

-- What does not go on with a number: no digit, minus, space or colon.
abbrev pub Stops : ℕ → Type 0
Stops c = ((c < 48) ⊎ (58 < c)) × (c ≢ b'-') × (c ≢ b' ')

code_loop-value :
    (n : ℕ) (ds post : List ℕ) (stop code : ℕ)
    → IsDigits ds
    → length ds < n
    → value ds code < 2147483648
    → Stops stop
    → code_loop n (ds ++ (stop ∷ post)) code true ≡ some (value ds code, true)
unfolding code_loop value
code_loop-value zero ds post stop code h short fits e = absurd (omega arith)
code_loop-value (suc n) [] post stop code h short fits e = ground arith
code_loop-value (suc n) (d ∷ ds) post stop code h short fits e = ground (
  arith,
  value_grows ds (code * 10 + (d - 48)),
  code_loop-value n ds post stop (code * 10 + (d - 48)) h.1,
)

digits_loop-IsDigits :
    (fuel n : ℕ) (acc : List ℕ) → IsDigits acc → IsDigits (digits_loop fuel n acc)
unfolding digits_loop
digits_loop-IsDigits zero n acc h = h
digits_loop-IsDigits (suc fuel) n acc h = elim (Bool-cases (n == 0)) [
  | inl c ↦ rw c h
  | inr c ↦
      rw c
        (digits_loop-IsDigits fuel (n / 10) ((48 + n % 10) ∷ acc) ((omega arith, omega arith), h))
]

length-digits_loop :
    (k fuel n : ℕ) (acc : List ℕ) → n < 10 ^ k → length (digits_loop fuel n acc) ≤ k + length acc
unfolding digits_loop
length-digits_loop k zero n acc h = omega arith
length-digits_loop zero (suc fuel) n acc h = ground arith
length-digits_loop (suc k) (suc fuel) n acc h =
    ground (
      arith,
      length-digits_loop k fuel (n / 10) ((48 + n % 10) ∷ acc) (omega (arith, pow-suc 10 k)),
    )

-- The digits of a code below 100000.
decimal-IsDigits : (n : ℕ) → n < 100000 → IsDigits (decimal n) × (length (decimal n) ≤ 5)
unfolding decimal
decimal-IsDigits zero h = (((omega arith, omega arith), tt), omega arith)
decimal-IsDigits (suc n) h =
    rw nonzero
      (digits_loop-IsDigits 20 (suc n) [] tt, length-digits_loop 5 20 (suc n) [] (omega arith))
  where
    nonzero : (suc n == 0) ≡ false
    nonzero = ground arith

-- A number as JSON writes it below zero, behind its colon, and the byte that follows it.
abbrev pub code_text : ℕ → ℕ → List ℕ → List ℕ
code_text n stop post = b':' ∷ b'-' ∷ decimal n ++ (stop ∷ post)

code_loop-decimal :
    (n stop : ℕ) (post : List ℕ)
    → n < 100000
    → Stops stop
    → code_loop 13 (drop 1 (code_text n stop post)) 0 false ≡ some (n, true)
code_loop-decimal n stop post h stops =
    let (digits, short) = decimal-IsDigits n h in
    let v = value-decimal n (omega arith) in
    let start : code_loop 13 (drop 1 (code_text n stop post)) 0 false
        ≡ code_loop 12 (decimal n ++ (stop ∷ post)) 0 true =
      unfold code_loop in refl in
    start
    ∙ code_loop-value 12 (decimal n) post stop 0 digits (omega (arith, short)) (omega (arith, v))
        stops
    ∙ ap (λ k. some (k, true)) v

-- The codes that the comment calls permanent, below zero.
abbrev pub permanent_codes : List ℕ
permanent_codes = 32700 ∷ 32600 ∷ 32601 ∷ 32602 ∷ 32001 ∷ 32003 ∷ []

unfoldable pub is_one_of : ℕ → List ℕ → Bool
is_one_of n [] = false
is_one_of n (k ∷ ks) = n == k || is_one_of n ks

one_of_lem : (n : ℕ) → is_permanent n true ≡ is_one_of n permanent_codes
unfolding is_permanent is_one_of
one_of_lem n = ground arith

check_lem :
    (json bs cs : List ℕ) (code : ℕ) (negative : Bool)
    → find_after 8 error_field json ≡ some bs
    → find_after 7 code_field bs ≡ some cs
    → code_loop 13 (drop 1 cs) 0 false ≡ some (code, negative)
    → check_rpc_error json ≡ some (if is_permanent code negative then 2 else 1)
unfolding check_rpc_error
check_lem json bs cs code negative e1 e2 e3 = rw (check_rpc_error, e1, e2, e3) refl

-- An answer with an "error" field, and a "code" field in or behind it with a code below zero of at most
-- five digits, is classified by the code: 2, a permanent error, for the six codes of the
-- comment, and 1, an error that may pass, for every other one. (The first of each field counts. The
-- code stands right behind its colon, and no digit, minus, space or colon right behind the code.)
pub check_rpc_error-code :
    (pre mid post : List ℕ) (n stop : ℕ)
    → let behind = code_field ++ code_text n stop post in
      misses error_field pre (error_field ++ (mid ++ behind)) ≡ true
      → misses code_field mid behind ≡ true
      → n < 100000
      → Stops stop
      → check_rpc_error (pre ++ (error_field ++ (mid ++ behind)))
        ≡ some (if is_one_of n permanent_codes then 2 else 1)
check_rpc_error-code pre mid post n stop m1 m2 h stops =
    let behind = code_field ++ code_text n stop post in
    let e1 =
      skip_lem 8 error_field pre (error_field ++ (mid ++ behind)) m1
      ∙ found_lem 8 b'"' (b'e' ∷ b'r' ∷ b'r' ∷ b'o' ∷ b'r' ∷ b'"' ∷ []) (mid ++ behind)
          (omega (arith, length-append mid behind)) in
    let e2 =
      skip_lem 7 code_field mid behind m2
      ∙ found_lem 7 b'"' (b'c' ∷ b'o' ∷ b'd' ∷ b'e' ∷ b'"' ∷ []) (code_text n stop post)
          (omega arith) in
    check_lem (pre ++ (error_field ++ (mid ++ behind))) (mid ++ behind) (code_text n stop post) n
      true e1 e2 (code_loop-decimal n stop post h stops)
    ∙ ap (λ b. some (if b then 2 else 1)) (one_of_lem n)
