-- ===== src/EvmRpc.antt =====
-- Calls of the EVM RPC canister in lib/ic0/canister_entry.c: the request, which the Idris2 code encodes,
-- and the reply, whose JSON is passed on with a classification of its error.
-- A message or a reply is its list of bytes.
pub mod Errors
mod Tests
use idris2_ouc.Base.{
  ℕ, zero, suc, ◌+◌, ◌-◌, ◌*◌, ◌/◌, ◌%◌, ◌<◌, List, [], ◌∷◌, ◌++◌, Option, none, some, ◌>>=◌, Bool,
  true, false, ◌&&◌, ◌||◌, not, ltb, leb, ◌==◌, if◌then◌else◌, length, take, drop, joined,
}
use idris2_ouc.Ecdsa.{Call}
use idris2_ouc.Candid.{reply_candid_text}
use idris2_ouc.Reject.{code_digits}
use idris2_ouc.Handlers.{text_chars}
use idris2_ouc.Http.{block_number_json}
use idris2_ouc.HttpReply.{digits4}
use idris2_ouc.EvmLogs.{find_after}
use idris2_ouc.Idris.{Machine, encode_evm_rpc_idris2}

abbrev pub evm_rpc_canister_id : List ℕ
evm_rpc_canister_id = 0x00 ∷ 0x00 ∷ 0x00 ∷ 0x00 ∷ 0x02 ∷ 0x30 ∷ 0x00 ∷ 0xcc ∷ 0x01 ∷ 0x01 ∷ []

abbrev pub method_request : List ℕ
method_request = b'r' ∷ b'e' ∷ b'q' ∷ b'u' ∷ b'e' ∷ b's' ∷ b't' ∷ []

abbrev pub encoding_failed_text : List ℕ
encoding_failed_text =
    b'{' ∷ b'"' ∷ b'e' ∷ b'r' ∷ b'r' ∷ b'o' ∷ b'r' ∷ b'"' ∷ b':' ∷ b'"' ∷ b'c' ∷ b'a' ∷ b'n' ∷ b'd'
    ∷ b'i' ∷ b'd' ∷ b'_' ∷ b'e' ∷ b'n' ∷ b'c' ∷ b'o' ∷ b'd' ∷ b'i' ∷ b'n' ∷ b'g' ∷ b'_' ∷ b'f'
    ∷ b'a' ∷ b'i' ∷ b'l' ∷ b'e' ∷ b'd' ∷ b'"' ∷ b'}' ∷ []

abbrev pub call_failed_text : List ℕ
call_failed_text =
    b'{' ∷ b'"' ∷ b'e' ∷ b'r' ∷ b'r' ∷ b'o' ∷ b'r' ∷ b'"' ∷ b':' ∷ b'"' ∷ b'c' ∷ b'a' ∷ b'l' ∷ b'l'
    ∷ b'_' ∷ b'f' ∷ b'a' ∷ b'i' ∷ b'l' ∷ b'e' ∷ b'd' ∷ b'"' ∷ b',' ∷ b'"' ∷ b'c' ∷ b'o' ∷ b'd'
    ∷ b'e' ∷ b'"' ∷ b':' ∷ []

-- What a handler has done when it returns: a reply it has sent, and a call it has made.
pub record Answer : Type 0 where
  pub reply : Option (List ℕ)
  pub call : Option Call

-- The code of a failed call, an int32_t.
unfoldable pub signed_digits : ℕ → List ℕ
signed_digits code =
    if ltb code 2147483648 then code_digits code else b'-' ∷ code_digits (4294967296 - code)

-- The call with the request that stands in the Candid buffer; `performed` is the system's answer.
unfoldable pub perform_request : ℕ → ℕ → ℕ → List ℕ → Answer
perform_request performed cycles len buf = record {
  reply =
      if performed == 0
      then none
      else some (reply_candid_text (call_failed_text ++ (signed_digits performed ++ (b'}' ∷ []))));
  call = some (record {
    callee = evm_rpc_canister_id;
    method = method_request;
    payload = take len buf;
    cycles = cycles;
  });
}

module _ {S : Type 0} (main : Machine S → Option (Machine S)) where
  -- The encoding of the JSON request and the call, as they stand in `testEvmRpc` and
  -- `queryDictionary`.
  unfoldable pub request_evm_rpc : List ℕ → ℕ → ℕ → ℕ → Machine S → Option (Answer × Machine S)
  request_evm_rpc json chain_id max_bytes performed m = do
    (candid_len, m') ← encode_evm_rpc_idris2 main json chain_id max_bytes m
    if leb 2147483648 candid_len
        then some
            (record { reply = some (reply_candid_text encoding_failed_text); call = none }, m')
        else some (perform_request performed 10000000000 candid_len m'.candid.buf, m')

  unfoldable pub canister_update_test_evm_rpc : ℕ → Machine S → Option (Answer × Machine S)
  canister_update_test_evm_rpc performed m = request_evm_rpc block_number_json 8453 2000 performed m

abbrev pub error_field : List ℕ
error_field = b'"' ∷ b'e' ∷ b'r' ∷ b'r' ∷ b'o' ∷ b'r' ∷ b'"' ∷ []

abbrev pub code_field : List ℕ
code_field = b'"' ∷ b'c' ∷ b'o' ∷ b'd' ∷ b'e' ∷ b'"' ∷ []

-- `for (k = j + 7; k < len && k < j + 20; k++)`: the number without its sign, and whether a minus was
-- met. `none`: an int32_t overflow.
unfoldable pub code_loop : ℕ → List ℕ → ℕ → Bool → Option (ℕ × Bool)
code_loop zero bs code negative = some (code, negative)
code_loop (suc n) [] code negative = some (code, negative)
code_loop (suc n) (c ∷ cs) code negative =
    let digit = code * 10 + (c - 48) in
    let with_digit = code_loop n cs digit negative in
    let minus = code_loop n cs code true in
    let skipped = code_loop n cs code negative in
    if c == b'-'
    then minus
    else if leb 48 c && leb c 57
    then (if ltb digit 2147483648 then with_digit else none)
    else if c == b' ' || c == b':'
    then skipped
    else some (code, negative)

unfoldable pub is_permanent : ℕ → Bool → Bool
is_permanent code negative =
    negative
    && (code == 32700
        || (code == 32600
            || (code == 32601 || (code == 32602 || (code == 32001 || code == 32003)))))

-- 0: no error; 1: an error that may pass; 2: a permanent error.
unfoldable pub check_rpc_error : List ℕ → Option ℕ
check_rpc_error json = elim (find_after 8 error_field json) [
  | none ↦ some 0
  | some bs ↦ elim (find_after 7 code_field bs) [
    | none ↦ some 1
    | some cs ↦ do
      (code, negative) ← code_loop 13 (drop 1 cs) 0 false
      some (if is_permanent code negative then 2 else 1)
  ]
]

-- The copy of the JSON up to the brace that closes it, `n` characters at most.
unfoldable pub copy_json : ℕ → List ℕ → ℕ → List ℕ
copy_json zero bs brace_count = []
copy_json (suc n) [] brace_count = []
copy_json (suc n) (c ∷ cs) brace_count =
    let count =
      if c == b'{' then brace_count + 1 else if c == b'}' then brace_count - 1 else brace_count in
    let more = copy_json n cs count in c ∷ (if count == 0 then [] else more)

abbrev pub json_start : List ℕ
json_start = b'{' ∷ b'"' ∷ []

abbrev pub no_json_text : List ℕ
no_json_text =
    b'{' ∷ b'"' ∷ b'e' ∷ b'r' ∷ b'r' ∷ b'o' ∷ b'r' ∷ b'"' ∷ b':' ∷ b'"' ∷ b'n' ∷ b'o' ∷ b'_' ∷ b'j'
    ∷ b's' ∷ b'o' ∷ b'n' ∷ b'_' ∷ b'f' ∷ b'o' ∷ b'u' ∷ b'n' ∷ b'd' ∷ b'"' ∷ b',' ∷ b'"' ∷ b'e'
    ∷ b'r' ∷ b'r' ∷ b'o' ∷ b'r' ∷ b'T' ∷ b'y' ∷ b'p' ∷ b'e' ∷ b'"' ∷ b':' ∷ b'"' ∷ b'p' ∷ b'a'
    ∷ b'r' ∷ b's' ∷ b'e' ∷ b'"' ∷ b',' ∷ b'"' ∷ b'r' ∷ b'e' ∷ b't' ∷ b'r' ∷ b'y' ∷ b'a' ∷ b'b'
    ∷ b'l' ∷ b'e' ∷ b'"' ∷ b':' ∷ b'f' ∷ b'a' ∷ b'l' ∷ b's' ∷ b'e' ∷ b',' ∷ b'"' ∷ b'r' ∷ b'a'
    ∷ b'w' ∷ b'L' ∷ b'e' ∷ b'n' ∷ b'"' ∷ b':' ∷ []

abbrev pub rpc_response_text : List ℕ
rpc_response_text =
    b'{' ∷ b'"' ∷ b'r' ∷ b'p' ∷ b'c' ∷ b'R' ∷ b'e' ∷ b's' ∷ b'p' ∷ b'o' ∷ b'n' ∷ b's' ∷ b'e' ∷ b'"'
    ∷ b':' ∷ []

abbrev pub rpc_retryable_text : List ℕ
rpc_retryable_text =
    b',' ∷ b'"' ∷ b'e' ∷ b'r' ∷ b'r' ∷ b'o' ∷ b'r' ∷ b'T' ∷ b'y' ∷ b'p' ∷ b'e' ∷ b'"' ∷ b':' ∷ b'"'
    ∷ b'r' ∷ b'p' ∷ b'c' ∷ b'"' ∷ b',' ∷ b'"' ∷ b'r' ∷ b'e' ∷ b't' ∷ b'r' ∷ b'y' ∷ b'a' ∷ b'b'
    ∷ b'l' ∷ b'e' ∷ b'"' ∷ b':' ∷ b't' ∷ b'r' ∷ b'u' ∷ b'e' ∷ b'}' ∷ []

abbrev pub rpc_permanent_text : List ℕ
rpc_permanent_text =
    b',' ∷ b'"' ∷ b'e' ∷ b'r' ∷ b'r' ∷ b'o' ∷ b'r' ∷ b'T' ∷ b'y' ∷ b'p' ∷ b'e' ∷ b'"' ∷ b':' ∷ b'"'
    ∷ b'r' ∷ b'p' ∷ b'c' ∷ b'"' ∷ b',' ∷ b'"' ∷ b'r' ∷ b'e' ∷ b't' ∷ b'r' ∷ b'y' ∷ b'a' ∷ b'b'
    ∷ b'l' ∷ b'e' ∷ b'"' ∷ b':' ∷ b'f' ∷ b'a' ∷ b'l' ∷ b's' ∷ b'e' ∷ b'}' ∷ []

-- `wrapped` holds 500 characters before its suffix.
unfoldable pub wrapped : ℕ → List ℕ → List ℕ
wrapped error_type json =
    if error_type == 0
    then json
    else rpc_response_text
      ++ (take 485 json ++ (if error_type == 1 then rpc_retryable_text else rpc_permanent_text))

-- A text ends at its first NUL.
unfoldable pub evm_rpc_reply_callback : List ℕ → Option (List ℕ)
evm_rpc_reply_callback msg =
    let buf = take 4096 msg in
    elim (find_after 10 json_start (drop 10 buf)) [
      | none ↦ some (reply_candid_text (no_json_text ++ (digits4 (length buf) ++ (b'}' ∷ []))))
      | some rest ↦ do
        let json = copy_json 500 (json_start ++ rest) 0
        error_type ← check_rpc_error json
        some (reply_candid_text (text_chars (wrapped error_type json)))
    ]
