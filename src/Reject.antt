-- ===== src/Reject.antt =====
-- The callbacks of rejected calls in lib/ic0/canister_entry.c. The code and the message of the rejection
-- come from the system; a code is not negative.
pub mod Escape
pub mod Fits
mod Tests
use idris2_ouc.Base.{
  ℕ, zero, suc, ◌+◌, ◌-◌, ◌/◌, ◌%◌, ◌<◌, List, [], ◌∷◌, ◌++◌, Bool, ◌&&◌, ◌||◌, not, ltb, leb, ◌==◌,
  if◌then◌else◌, length, take, min,
}
use idris2_ouc.Word.{u8}
use idris2_ouc.Candid.{reply_candid_text}

-- What one character of a message adds to the response: a backslash in front of a quotation mark or a
-- backslash, and nothing for what is not printable.
unfoldable pub escaped : ℕ → List ℕ
escaped c =
    (if c == b'"' || c == 92 then 92 ∷ [] else []) ++ (if leb 32 c && ltb c 127 then c ∷ [] else [])

-- `for (i = 0; i < size && len < bound; i++)`.
unfoldable pub escape_loop : ℕ → ℕ → List ℕ → List ℕ
escape_loop bound len [] = []
escape_loop bound len (c ∷ cs) =
    let more = escape_loop bound (len + length (escaped c)) cs in
    if ltb len bound then escaped c ++ more else []

-- Up to two digits, and up to three.
unfoldable pub code_digits : ℕ → List ℕ
code_digits n = (if leb 10 n then (48 + n / 10 % 10) ∷ [] else []) ++ ((48 + n % 10) ∷ [])

unfoldable pub size_digits : ℕ → List ℕ
size_digits n = (if leb 100 n then (48 + n / 100 % 10) ∷ [] else []) ++ code_digits n

abbrev pub rejected_text : List ℕ
rejected_text =
    b'{' ∷ b'"' ∷ b'e' ∷ b'r' ∷ b'r' ∷ b'o' ∷ b'r' ∷ b'"' ∷ b':' ∷ b'"' ∷ b'r' ∷ b'e' ∷ b'j' ∷ b'e'
    ∷ b'c' ∷ b't' ∷ b'e' ∷ b'd' ∷ b'"' ∷ b',' ∷ b'"' ∷ b'c' ∷ b'o' ∷ b'd' ∷ b'e' ∷ b'"' ∷ b':' ∷ []

abbrev pub msg_size_text : List ℕ
msg_size_text = b',' ∷ b'"' ∷ b'm' ∷ b's' ∷ b'g' ∷ b'S' ∷ b'i' ∷ b'z' ∷ b'e' ∷ b'"' ∷ b':' ∷ []

abbrev pub msg_text : List ℕ
msg_text = b',' ∷ b'"' ∷ b'm' ∷ b's' ∷ b'g' ∷ b'"' ∷ b':' ∷ b'"' ∷ []

-- The message behind `start`, if `with_msg` holds, and the end of the object.
unfoldable pub with_message : Bool → ℕ → List ℕ → List ℕ → List ℕ
with_message with_msg bound msg start =
    if with_msg
    then start
      ++ (msg_text
          ++ (escape_loop bound (length start + length msg_text) msg ++ (b'"' ∷ b'}' ∷ [])))
    else start ++ (b'}' ∷ [])

-- What stands in front of the message.
unfoldable pub http_start : ℕ → List ℕ → List ℕ
http_start code msg =
    rejected_text ++ (code_digits code ++ (msg_size_text ++ size_digits (length msg)))

unfoldable pub http_reject_text : ℕ → List ℕ → List ℕ
http_reject_text code msg =
    with_message (ltb 0 (length msg)) 950 (take 700 msg) (http_start code msg)

unfoldable pub http_reject_callback : ℕ → List ℕ → List ℕ
http_reject_callback code msg = reply_candid_text (http_reject_text code msg)

abbrev pub evm_rejected_text : List ℕ
evm_rejected_text =
    b'{' ∷ b'"' ∷ b'e' ∷ b'r' ∷ b'r' ∷ b'o' ∷ b'r' ∷ b'"' ∷ b':' ∷ b'"' ∷ b'e' ∷ b'v' ∷ b'm' ∷ b'_'
    ∷ b'r' ∷ b'p' ∷ b'c' ∷ b'_' ∷ b'r' ∷ b'e' ∷ b'j' ∷ b'e' ∷ b'c' ∷ b't' ∷ b'e' ∷ b'd' ∷ b'"'
    ∷ b',' ∷ b'"' ∷ b'c' ∷ b'o' ∷ b'd' ∷ b'e' ∷ b'"' ∷ b':' ∷ []

abbrev pub error_type_text : List ℕ
error_type_text =
    b',' ∷ b'"' ∷ b'e' ∷ b'r' ∷ b'r' ∷ b'o' ∷ b'r' ∷ b'T' ∷ b'y' ∷ b'p' ∷ b'e' ∷ b'"' ∷ b':' ∷ b'"'
    ∷ []

abbrev pub retryable_true : List ℕ
retryable_true =
    b',' ∷ b'"' ∷ b'r' ∷ b'e' ∷ b't' ∷ b'r' ∷ b'y' ∷ b'a' ∷ b'b' ∷ b'l' ∷ b'e' ∷ b'"' ∷ b':' ∷ b't'
    ∷ b'r' ∷ b'u' ∷ b'e' ∷ []

abbrev pub retryable_false : List ℕ
retryable_false =
    b',' ∷ b'"' ∷ b'r' ∷ b'e' ∷ b't' ∷ b'r' ∷ b'y' ∷ b'a' ∷ b'b' ∷ b'l' ∷ b'e' ∷ b'"' ∷ b':' ∷ b'f'
    ∷ b'a' ∷ b'l' ∷ b's' ∷ b'e' ∷ []

unfoldable pub error_type : ℕ → List ℕ
error_type code =
    if code == 1
    then b's' ∷ b'y' ∷ b's' ∷ b'_' ∷ b'f' ∷ b'a' ∷ b't' ∷ b'a' ∷ b'l' ∷ []
    else if code == 2
    then b's' ∷ b'y' ∷ b's' ∷ b'_' ∷ b't' ∷ b'r' ∷ b'a' ∷ b'n' ∷ b's' ∷ b'i' ∷ b'e' ∷ b'n' ∷ b't'
      ∷ []
    else if code == 3
    then b'd' ∷ b'e' ∷ b's' ∷ b't' ∷ b'_' ∷ b'i' ∷ b'n' ∷ b'v' ∷ b'a' ∷ b'l' ∷ b'i' ∷ b'd' ∷ []
    else if code == 4
    then b'c' ∷ b'a' ∷ b'n' ∷ b'i' ∷ b's' ∷ b't' ∷ b'e' ∷ b'r' ∷ b'_' ∷ b'r' ∷ b'e' ∷ b'j' ∷ b'e'
      ∷ b'c' ∷ b't' ∷ []
    else if code == 5
    then b'c' ∷ b'a' ∷ b'n' ∷ b'i' ∷ b's' ∷ b't' ∷ b'e' ∷ b'r' ∷ b'_' ∷ b'e' ∷ b'r' ∷ b'r' ∷ b'o'
      ∷ b'r' ∷ []
    else b'u' ∷ b'n' ∷ b'k' ∷ b'n' ∷ b'o' ∷ b'w' ∷ b'n' ∷ []

unfoldable pub evm_start : ℕ → List ℕ
evm_start code =
    evm_rejected_text
    ++ (code_digits code
        ++ (error_type_text
            ++ (error_type code
                ++ (b'"' ∷ (if code == 2 || code == 5 then retryable_true else retryable_false)))))

unfoldable pub evm_reject_text : ℕ → List ℕ → List ℕ
evm_reject_text code msg =
    with_message (ltb 0 (length msg) && ltb (length msg) 250) 450 msg (evm_start code)

unfoldable pub evm_rpc_reject_callback : ℕ → List ℕ → List ℕ
evm_rpc_reject_callback code msg = reply_candid_text (evm_reject_text code msg)

abbrev pub dict_rejected_text : List ℕ
dict_rejected_text =
    b'{' ∷ b'"' ∷ b'e' ∷ b'r' ∷ b'r' ∷ b'o' ∷ b'r' ∷ b'"' ∷ b':' ∷ b'"' ∷ b'd' ∷ b'i' ∷ b'c' ∷ b't'
    ∷ b'_' ∷ b'q' ∷ b'u' ∷ b'e' ∷ b'r' ∷ b'y' ∷ b'_' ∷ b'r' ∷ b'e' ∷ b'j' ∷ b'e' ∷ b'c' ∷ b't'
    ∷ b'e' ∷ b'd' ∷ b'"' ∷ b',' ∷ b'"' ∷ b'c' ∷ b'o' ∷ b'd' ∷ b'e' ∷ b'"' ∷ b':' ∷ []

unfoldable pub dict_start : ℕ → List ℕ
dict_start code = dict_rejected_text ++ code_digits code

unfoldable pub dict_reject_text : ℕ → List ℕ → List ℕ
dict_reject_text code msg =
    with_message (ltb 0 (length msg) && ltb (length msg) 300) 480 msg (dict_start code)

unfoldable pub dict_query_reject_callback : ℕ → List ℕ → List ℕ
dict_query_reject_callback code msg = reply_candid_text (dict_reject_text code msg)
