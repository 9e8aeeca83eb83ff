-- ===== src/Reject/Fits.antt =====
-- The responses to rejections in lib/ic0/canister_entry.c: their message, and the buffers that they are
-- built in.
use idris2_ouc.Base.{
  sym, append_assoc, ℕ, ◌+◌, ◌*◌, ◌≤◌, ◌<◌, ◌≡◌, List, [], ◌∷◌, ◌++◌, some, Bool, true, false,
  length, take, arith, length-append, ltb, ◌&&◌, ◌==◌, ◌||◌, if◌then◌else◌, drop, ap, ◌∙◌,
}
use idris2_ouc.Base.Split.{take_all, drop-append}
use idris2_ouc.Reject.{
  http_start, evm_start, dict_start, escape_loop, code_digits, size_digits, msg_size_text, msg_text,
  with_message, http_reject_text, error_type_text, retryable_true, retryable_false, error_type,
  evm_reject_text, dict_reject_text,
}
use idris2_ouc.Reject.Escape.{read_string, printable, read_string-escape_loop, length-escape_loop}

length-with_message :
    (with_msg : Bool) (bound : ℕ) (msg start : List ℕ)
    → length start + 8 ≤ bound + 1
    → length (with_message with_msg bound msg start) ≤ bound + 3
unfolding with_message
length-with_message false bound msg start h = omega (arith, length-append start (b'}' ∷ []))
length-with_message true bound msg start h =
    let text = escape_loop bound (length start + 8) msg in
    omega (
      arith,
      length-append start (msg_text ++ (text ++ (b'"' ∷ b'}' ∷ []))),
      length-append text (b'"' ∷ b'}' ∷ []),
      length-escape_loop bound (length start + 8) msg h,
    )

length-code_digits : (n : ℕ) → length (code_digits n) ≤ 2
unfolding code_digits
length-code_digits n = ground arith

length-size_digits : (n : ℕ) → length (size_digits n) ≤ 3
unfolding size_digits code_digits
length-size_digits n = ground arith

length-http_start : (code : ℕ) (msg : List ℕ) → length (http_start code msg) ≤ 43
unfolding http_start
length-http_start code msg = omega (
  arith,
  length-append (code_digits code) (msg_size_text ++ size_digits (length msg)),
  length-code_digits code,
  length-size_digits (length msg),
)

length-error_type : (code : ℕ) → length (error_type code) ≤ 15
unfolding error_type
length-error_type code = ground arith

length-retryable : (b : Bool) → length (if b then retryable_true else retryable_false) ≤ 18
length-retryable true = omega arith
length-retryable false = omega arith

length-evm_start : (code : ℕ) → length (evm_start code) ≤ 100
unfolding evm_start
length-evm_start code =
    let retry = if code == 2 || code == 5 then retryable_true else retryable_false in
    omega (
      arith,
      length-append (code_digits code) (error_type_text ++ (error_type code ++ (b'"' ∷ retry))),
      length-append (error_type code) (b'"' ∷ retry),
      length-code_digits code,
      length-error_type code,
      length-retryable (code == 2 || code == 5),
    )

length-dict_start : (code : ℕ) → length (dict_start code) ≤ 40
unfolding dict_start
length-dict_start code = omega (arith, length-code_digits code)

-- For every code and every message the responses to rejections fit their buffers, of 1024, 512 and 512
-- bytes, with their NUL.
pub reject-fits :
    (code : ℕ) (msg : List ℕ)
    → (length (http_reject_text code msg) < 1024)
      × (length (evm_reject_text code msg) < 512)
      × (length (dict_reject_text code msg) < 512)
unfolding http_reject_text evm_reject_text dict_reject_text
reject-fits code msg =
    let http = length-http_start code msg in
    let evm = length-evm_start code in
    let dict = length-dict_start code in
    (
      omega (
        arith,
        length-with_message (ltb 0 (length msg)) 950 (take 700 msg) (http_start code msg)
            (omega (arith, http)),
      ),
      omega (
        arith,
        length-with_message (ltb 0 (length msg) && ltb (length msg) 250) 450 msg (evm_start code)
            (omega (arith, evm)),
      ),
      omega (
        arith,
        length-with_message (ltb 0 (length msg) && ltb (length msg) 300) 480 msg (dict_start code)
            (omega (arith, dict)),
      ),
    )

drop_start : (start xs : List ℕ) → drop (length start + 8) (start ++ (msg_text ++ xs)) ≡ xs
drop_start start xs =
    ap (λ n. drop n (start ++ (msg_text ++ xs))) {x = length start + 8}
      {y = length (start ++ msg_text)} (omega (arith, length-append start msg_text))
    ∙ ap (drop (length (start ++ msg_text))) (sym (append_assoc start msg_text xs))
    ∙ drop-append (start ++ msg_text) xs

read_with_message :
    (bound : ℕ) (msg start : List ℕ)
    → length start + 8 + 2 * length msg ≤ bound
    → read_string (drop (length start + 8) (with_message true bound msg start))
      ≡ some (printable msg, b'}' ∷ [])
unfolding with_message
read_with_message bound msg start h =
    let text = escape_loop bound (length start + 8) msg in
    ap read_string (drop_start start (text ++ (b'"' ∷ b'}' ∷ [])))
    ∙ read_string-escape_loop bound (length start + 8) msg (b'}' ∷ []) h

-- A message of 1 to 171 characters stands whole in the responses to rejections: behind the start of each
-- of the three, its printable characters are read back as a JSON string, and the end of the object
-- follows.
pub read_string-reject :
    (code : ℕ) (msg : List ℕ)
    → 0 < length msg
    → length msg ≤ 171
    → (read_string (drop (length (http_start code msg) + 8) (http_reject_text code msg))
        ≡ some (printable msg, b'}' ∷ []))
      × (read_string (drop (length (evm_start code) + 8) (evm_reject_text code msg))
          ≡ some (printable msg, b'}' ∷ []))
      × (read_string (drop (length (dict_start code) + 8) (dict_reject_text code msg))
          ≡ some (printable msg, b'}' ∷ []))
unfolding http_reject_text evm_reject_text dict_reject_text
read_string-reject code msg some_msg short =
    let all : take 700 msg ≡ msg = take_all 700 msg (omega arith) in
    let at_all : ltb 0 (length msg) ≡ true = ground arith in
    let below_250 : ltb (length msg) 250 ≡ true = ground arith in
    let below_300 : ltb (length msg) 300 ≡ true = ground arith in
    (
      rw (http_reject_text, at_all, all)
          (read_with_message 950 msg (http_start code msg)
            (omega (arith, length-http_start code msg))),
      rw (evm_reject_text, at_all, below_250)
          (read_with_message 450 msg (evm_start code) (omega (arith, length-evm_start code))),
      rw (dict_reject_text, at_all, below_300)
          (read_with_message 480 msg (dict_start code) (omega (arith, length-dict_start code))),
    )
