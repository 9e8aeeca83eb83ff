-- ===== src/HttpReply.antt =====
-- The replies to HTTP outcalls in lib/ic0/canister_entry.c: the parser of the response, the search for
-- the result of a JSON-RPC call in it, and the callback `http_reply_callback`.
-- An offset is an int32_t, read as a natural number: from 2^31 on it is negative, and a read there is
-- undefined, as is a shift by 64 or more. `none` stands for both.
pub mod Values
pub mod Outcall
mod Tests
use idris2_ouc.Base.{
  ℕ, zero, suc, ◌+◌, ◌-◌, ◌*◌, ◌/◌, ◌%◌, ◌^◌, ◌<◌, List, [], ◌∷◌, ◌++◌, Option, none, some, ◌>>=◌,
  bit_or, not, ◌&&◌, ltb, leb, ◌==◌, if◌then◌else◌, length, take, drop, get_or, joined,
}
use idris2_ouc.Word.{u32, u64}
use idris2_ouc.EvmLogs.{find_after, until_quote}
use idris2_ouc.Handlers.{last_digits, text_chars}
use idris2_ouc.Candid.{reply_candid_text}

-- The loop of `parse_leb128_at` on the bytes from the offset on.
unfoldable pub leb128_at_loop : List ℕ → ℕ → ℕ → ℕ → Option (ℕ × ℕ)
leb128_at_loop [] result shift offset = some (result, offset)
leb128_at_loop (byte ∷ bytes) result shift offset =
    let result' = bit_or result (u64 (byte % 128 * 2 ^ shift)) in
    let more = leb128_at_loop bytes result' (shift + 7) (offset + 1) in
    if ltb 63 shift then none else if byte / 128 % 2 == 0 then some (result', offset + 1) else more

-- The value and the new offset; `max_len` is the length of the buffer.
unfoldable pub parse_leb128_at : List ℕ → ℕ → Option (ℕ × ℕ)
parse_leb128_at buf offset =
    if leb 2147483648 offset then none else leb128_at_loop (drop offset buf) 0 0 offset

-- Two numbers for each field of a record.
unfoldable pub skip_fields : ℕ → List ℕ → ℕ → Option ℕ
skip_fields zero buf offset = some offset
skip_fields (suc n) buf offset = do
  (hash, o1) ← parse_leb128_at buf offset
  (type_code, o2) ← parse_leb128_at buf o1
  skip_fields n buf o2

-- What follows a type code: nothing behind -19, -15, -5 and -6 as 64-bit words and behind most others.
unfoldable pub skip_type : ℕ → List ℕ → ℕ → Option ℕ
skip_type type_code buf offset =
    let fields = (do (n, o1) ← parse_leb128_at buf offset; skip_fields n buf o1) in
    let one = (do (v, o1) ← parse_leb128_at buf offset; some o1) in
    if type_code == 18446744073709551597
    then some offset
    else if type_code == 18446744073709551601
    then some offset
    else if type_code == 18446744073709551611
    then some offset
    else if type_code == 18446744073709551610
    then some offset
    else if type_code % 256 == 0x6C
    then fields
    else if type_code % 256 == 0x6D
    then one
    else if type_code % 256 == 0x6E
    then one
    else some offset

unfoldable pub skip_type_table : ℕ → List ℕ → ℕ → Option ℕ
skip_type_table zero buf offset = some offset
skip_type_table (suc n) buf offset = do
  (type_code, o1) ← parse_leb128_at buf offset
  o2 ← skip_type type_code buf o1
  skip_type_table n buf o2

-- Name and value of each header.
unfoldable pub skip_headers : ℕ → List ℕ → ℕ → Option ℕ
skip_headers zero buf offset = some offset
skip_headers (suc n) buf offset = do
  (name_len, o1) ← parse_leb128_at buf offset
  (value_len, o2) ← parse_leb128_at buf (u32 (o1 + name_len))
  skip_headers n buf (u32 (o2 + value_len))

-- The result code without its sign, and what the out-parameters hold: the status, the length of the
-- body as an int32_t, and the body, which is empty where the length is negative.
pub record Parsed : Type 0 where
  pub code : ℕ
  pub status : ℕ
  pub body_len : ℕ
  pub body : List ℕ

abbrev pub failed : ℕ → ℕ → Parsed
failed code status = record { code = code; status = status; body_len = 0; body = [] }

unfoldable pub parse_body : List ℕ → ℕ → ℕ → Option Parsed
parse_body buf status offset = do
  (announced, o1) ← parse_leb128_at buf offset
  let n = u32 announced
  if leb 2147483648 n
      then some (record { code = 0; status = status; body_len = n; body = [] })
      else if ltb (length buf) (o1 + n)
      then some (failed 4 status)
      else some (record { code = 0; status = status; body_len = n; body = take n (drop o1 buf) })

-- What comes behind the status.
unfoldable pub parse_headers_and_body : List ℕ → ℕ → ℕ → Option Parsed
parse_headers_and_body buf status offset = do
  (headers_count, o1) ← parse_leb128_at buf offset
  o2 ← skip_headers headers_count buf o1
  parse_body buf status o2

unfoldable pub parse_http_response_body : List ℕ → Option Parsed
parse_http_response_body buf =
    if ltb (length buf) 4
    then some (failed 1 0)
    else if not (
        get_or buf 0 0 == b'D'
        && (get_or buf 1 0 == b'I' && (get_or buf 2 0 == b'D' && get_or buf 3 0 == b'L')))
    then some (failed 2 0)
    else (do
      (type_count, o1) ← parse_leb128_at buf 4
      o2 ← skip_type_table type_count buf o1
      (arg_count, o3) ← parse_leb128_at buf o2
      if ltb arg_count 1 then some (failed 3 0) else (do
        (main_type, o4) ← parse_leb128_at buf o3
        (status, o5) ← parse_leb128_at buf o4
        parse_headers_and_body buf status o5))

abbrev pub result_pattern : List ℕ
result_pattern = b'"' ∷ b'r' ∷ b'e' ∷ b's' ∷ b'u' ∷ b'l' ∷ b't' ∷ b'"' ∷ b':' ∷ b'"' ∷ []

-- `none` is -1.
unfoldable pub extract_jsonrpc_result : List ℕ → ℕ → Option (List ℕ)
extract_jsonrpc_result json max_len = elim (find_after 10 result_pattern json) [
  | none ↦ none
  | some bs ↦ some (take (max_len - 1) (until_quote bs))
]

-- Up to four digits.
unfoldable pub digits4 : ℕ → List ℕ
digits4 n =
    (if leb 1000 n then (48 + n / 1000 % 10) ∷ [] else [])
    ++ ((if leb 100 n then (48 + n / 100 % 10) ∷ [] else [])
        ++ ((if leb 10 n then (48 + n / 10 % 10) ∷ [] else []) ++ ((48 + n % 10) ∷ [])))

abbrev pub candid_failed_text : List ℕ
candid_failed_text =
    b'{' ∷ b'"' ∷ b'e' ∷ b'r' ∷ b'r' ∷ b'o' ∷ b'r' ∷ b'"' ∷ b':' ∷ b'"' ∷ b'c' ∷ b'a' ∷ b'n' ∷ b'd'
    ∷ b'i' ∷ b'd' ∷ b'_' ∷ b'p' ∷ b'a' ∷ b'r' ∷ b's' ∷ b'e' ∷ b'_' ∷ b'f' ∷ b'a' ∷ b'i' ∷ b'l'
    ∷ b'e' ∷ b'd' ∷ b'"' ∷ b',' ∷ b'"' ∷ b'c' ∷ b'o' ∷ b'd' ∷ b'e' ∷ b'"' ∷ b':' ∷ []

abbrev pub raw_len_text : List ℕ
raw_len_text = b',' ∷ b'"' ∷ b'r' ∷ b'a' ∷ b'w' ∷ b'L' ∷ b'e' ∷ b'n' ∷ b'"' ∷ b':' ∷ []

abbrev pub http_status_text : List ℕ
http_status_text =
    b'{' ∷ b'"' ∷ b'e' ∷ b'r' ∷ b'r' ∷ b'o' ∷ b'r' ∷ b'"' ∷ b':' ∷ b'"' ∷ b'h' ∷ b't' ∷ b't' ∷ b'p'
    ∷ b'_' ∷ b's' ∷ b't' ∷ b'a' ∷ b't' ∷ b'u' ∷ b's' ∷ b'"' ∷ b',' ∷ b'"' ∷ b's' ∷ b't' ∷ b'a'
    ∷ b't' ∷ b'u' ∷ b's' ∷ b'"' ∷ b':' ∷ []

abbrev pub jsonrpc_failed_text : List ℕ
jsonrpc_failed_text =
    b'{' ∷ b'"' ∷ b'e' ∷ b'r' ∷ b'r' ∷ b'o' ∷ b'r' ∷ b'"' ∷ b':' ∷ b'"' ∷ b'j' ∷ b's' ∷ b'o' ∷ b'n'
    ∷ b'r' ∷ b'p' ∷ b'c' ∷ b'_' ∷ b'p' ∷ b'a' ∷ b'r' ∷ b's' ∷ b'e' ∷ b'_' ∷ b'f' ∷ b'a' ∷ b'i'
    ∷ b'l' ∷ b'e' ∷ b'd' ∷ b'"' ∷ b',' ∷ b'"' ∷ b'b' ∷ b'o' ∷ b'd' ∷ b'y' ∷ b'L' ∷ b'e' ∷ b'n'
    ∷ b'"' ∷ b':' ∷ []

abbrev pub result_text : List ℕ
result_text = b'{' ∷ b'"' ∷ b'r' ∷ b'e' ∷ b's' ∷ b'u' ∷ b'l' ∷ b't' ∷ b'"' ∷ b':' ∷ b'"' ∷ []

-- The text of the reply. A negative length of the body is written as its last digit below '0'.
unfoldable pub reply_text : ℕ → Parsed → List ℕ
reply_text raw_len p =
    if not (p.code == 0)
    then joined (
        candid_failed_text
        ∷ (45 ∷ (48 + p.code % 10) ∷ [])
        ∷ raw_len_text
        ∷ digits4 raw_len
        ∷ (b'}' ∷ [])
        ∷ [])
    else if not (p.status == 200)
    then joined (http_status_text ∷ last_digits p.status ∷ (b'}' ∷ []) ∷ [])
    else elim (extract_jsonrpc_result p.body 128) [
      | none ↦
          let len_text =
            if ltb p.body_len 2147483648
            then last_digits p.body_len
            else (48 - (4294967296 - p.body_len) % 10) ∷ [] in
          joined (jsonrpc_failed_text ∷ len_text ∷ (b'}' ∷ []) ∷ [])
      | some result ↦ joined (result_text ∷ result ∷ (b'"' ∷ b'}' ∷ []) ∷ [])
    ]

-- The text ends at its first NUL.
unfoldable pub http_reply_callback : List ℕ → Option (List ℕ)
http_reply_callback msg = do
  let buf = take 4096 msg
  p ← parse_http_response_body buf
  some (reply_candid_text (text_chars (reply_text (length buf) p)))
