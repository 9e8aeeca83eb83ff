-- ===== src/FetchLogs.antt =====
-- Fetching the logs of an EVM contract in lib/ic0/canister_entry.c: `canister_update_fetchEvmLogs`, whose
-- request the Idris2 code encodes, and its callbacks. The reply callback stores the logs by calls of
-- the Idris2 code. `none`: a trap, or what C leaves undefined.
pub mod Reply
pub mod Request
mod Tests
use idris2_ouc.Base.{
  ℕ, zero, suc, ◌+◌, ◌-◌, ◌/◌, ◌%◌, ◌<◌, List, [], ◌∷◌, ◌++◌, Option, none, some, ◌>>=◌, Bool, ◌&&◌,
  ltb, leb, ◌==◌, if◌then◌else◌, length, take, drop, get_or,
}
use idris2_ouc.Word.{u8, u32}
use idris2_ouc.Word.Bytes.{read_u64}
use idris2_ouc.Leb128.{parse_leb128}
use idris2_ouc.Candid.{reply_candid_text, load_candid_args, skip_types}
use idris2_ouc.Handlers.{decimal, text_chars}
use idris2_ouc.EvmLogs.{find_after, parse_and_store_logs, build_eth_get_logs_json}
use idris2_ouc.Idris.{Machine, call_idris2_2arg, encode_evm_rpc_idris2}
use idris2_ouc.EvmRpc.{
  Answer, evm_rpc_canister_id, method_request, encoding_failed_text, call_failed_text, json_start,
}
use idris2_ouc.Dictionary.{refuse}

-- `g_fetch_from_block`, `g_fetch_to_block`, and the characters of `g_fetch_address` before its NUL.
pub record Fetch : Type 0 where
  pub from_block : ℕ
  pub to_block : ℕ
  pub address : List ℕ

abbrev pub need_args_text : List ℕ
need_args_text =
    b'{' ∷ b'"' ∷ b'e' ∷ b'r' ∷ b'r' ∷ b'o' ∷ b'r' ∷ b'"' ∷ b':' ∷ b'"' ∷ b'n' ∷ b'e' ∷ b'e' ∷ b'd'
    ∷ b'_' ∷ b'a' ∷ b't' ∷ b'_' ∷ b'l' ∷ b'e' ∷ b'a' ∷ b's' ∷ b't' ∷ b'_' ∷ b'2' ∷ b'_' ∷ b'a'
    ∷ b'r' ∷ b'g' ∷ b's' ∷ b'"' ∷ b'}' ∷ []

abbrev pub invalid_from_text : List ℕ
invalid_from_text =
    b'{' ∷ b'"' ∷ b'e' ∷ b'r' ∷ b'r' ∷ b'o' ∷ b'r' ∷ b'"' ∷ b':' ∷ b'"' ∷ b'i' ∷ b'n' ∷ b'v' ∷ b'a'
    ∷ b'l' ∷ b'i' ∷ b'd' ∷ b'_' ∷ b'f' ∷ b'r' ∷ b'o' ∷ b'm' ∷ b'B' ∷ b'l' ∷ b'o' ∷ b'c' ∷ b'k'
    ∷ b'"' ∷ b'}' ∷ []

abbrev pub invalid_to_text : List ℕ
invalid_to_text =
    b'{' ∷ b'"' ∷ b'e' ∷ b'r' ∷ b'r' ∷ b'o' ∷ b'r' ∷ b'"' ∷ b':' ∷ b'"' ∷ b'i' ∷ b'n' ∷ b'v' ∷ b'a'
    ∷ b'l' ∷ b'i' ∷ b'd' ∷ b'_' ∷ b't' ∷ b'o' ∷ b'B' ∷ b'l' ∷ b'o' ∷ b'c' ∷ b'k' ∷ b'"' ∷ b'}' ∷ []

abbrev pub fetch_rejected_text : List ℕ
fetch_rejected_text =
    b'{' ∷ b'"' ∷ b'e' ∷ b'r' ∷ b'r' ∷ b'o' ∷ b'r' ∷ b'"' ∷ b':' ∷ b'"' ∷ b'f' ∷ b'e' ∷ b't' ∷ b'c'
    ∷ b'h' ∷ b'_' ∷ b'l' ∷ b'o' ∷ b'g' ∷ b's' ∷ b'_' ∷ b'r' ∷ b'e' ∷ b'j' ∷ b'e' ∷ b'c' ∷ b't'
    ∷ b'e' ∷ b'd' ∷ b'"' ∷ b',' ∷ b'"' ∷ b'c' ∷ b'o' ∷ b'd' ∷ b'e' ∷ b'"' ∷ b':' ∷ []

abbrev pub from_block_text : List ℕ
from_block_text =
    b'{' ∷ b'"' ∷ b'f' ∷ b'r' ∷ b'o' ∷ b'm' ∷ b'B' ∷ b'l' ∷ b'o' ∷ b'c' ∷ b'k' ∷ b'"' ∷ b':' ∷ []

abbrev pub to_block_text : List ℕ
to_block_text = b',' ∷ b'"' ∷ b't' ∷ b'o' ∷ b'B' ∷ b'l' ∷ b'o' ∷ b'c' ∷ b'k' ∷ b'"' ∷ b':' ∷ []

abbrev pub events_stored_text : List ℕ
events_stored_text =
    b',' ∷ b'"' ∷ b'e' ∷ b'v' ∷ b'e' ∷ b'n' ∷ b't' ∷ b's' ∷ b'S' ∷ b't' ∷ b'o' ∷ b'r' ∷ b'e' ∷ b'd'
    ∷ b'"' ∷ b':' ∷ []

-- `'0' + (result % 10)` on an int32_t.
unfoldable pub result_digit : ℕ → ℕ
result_digit code = if ltb code 2147483648 then 48 + code % 10 else 48 - (4294967296 - code) % 10

-- The call with the request that stands in the Candid buffer, and what is said where the system
-- refuses it: `performed` is its answer.
unfoldable pub perform_call : ℕ → ℕ → ℕ → List ℕ → Answer
perform_call performed cycles len buf = record {
  reply =
      if performed == 0
      then none
      else some (reply_candid_text (call_failed_text ++ (result_digit performed ∷ b'}' ∷ [])));
  call = some (record {
    callee = evm_rpc_canister_id;
    method = method_request;
    payload = take len buf;
    cycles = cycles;
  });
}

-- `offset += (int32_t)arg_count`. `none`: an overflow, here or in the comparison that follows, or an
-- offset in front of the buffer.
unfoldable pub skip_codes : ℕ → ℕ → Option ℕ
skip_codes arg_count offset =
    let n = u32 arg_count in
    if ltb n 2147483648
    then (if ltb (offset + n + 8) 2147483648 then some (offset + n) else none)
    else if leb 4294967296 (offset + n)
    then some (offset + n - 4294967296)
    else none

-- The optional address behind the two blocks. A text that is empty, too long or cut off is no address.
unfoldable pub parse_address : List ℕ → Option (List ℕ)
parse_address [] = some []
parse_address (opt_tag ∷ bytes) =
    if opt_tag == 1 && ltb 0 (length bytes)
    then (do
      (text_len, rest) ← parse_leb128 bytes
      some (
          if ltb 0 text_len && (ltb text_len 43 && leb text_len (length rest))
          then text_chars (take text_len rest)
          else []))
    else some []

module _ {S : Type 0} (main : Machine S → Option (Machine S)) where
  -- The request for the logs of the blocks that are kept.
  unfoldable pub request_logs : ℕ → Fetch → Machine S → Option (Answer × Fetch × Machine S)
  request_logs performed f m = do
    (candid_len, m') ←
        encode_evm_rpc_idris2 main (build_eth_get_logs_json f.from_block f.to_block f.address) 1
          8000 m
    if leb 2147483648 candid_len
        then some (refuse encoding_failed_text, f, m')
        else some (perform_call performed 20000000000 candid_len m'.candid.buf, f, m')

  -- The arguments behind the type codes.
  unfoldable pub fetch_at : ℕ → List ℕ → Fetch → Machine S → Option (Answer × Fetch × Machine S)
  fetch_at performed bytes f0 m =
      let f1 = record f0 { from_block = read_u64 bytes } in
      let f2 = record f1 { to_block = read_u64 (drop 8 bytes) } in
      if ltb (length bytes) 8
      then some (refuse invalid_from_text, f0, m)
      else if ltb (length bytes) 16
      then some (refuse invalid_to_text, f1, m)
      else (do
        address ← parse_address (drop 16 bytes)
        request_logs performed (record f2 { address = address }) m)

  unfoldable pub canister_update_fetch_evm_logs :
      ℕ → List ℕ → Fetch → Machine S → Option (Answer × Fetch × Machine S)
  canister_update_fetch_evm_logs performed msg f m = do
    let arg = load_candid_args msg
    (type_count, r1) ← parse_leb128 (drop 4 arg)
    r2 ← skip_types type_count r1
    (arg_count, r3) ← parse_leb128 r2
    if ltb arg_count 2 then some (refuse need_args_text, f, m) else (do
      offset ← skip_codes arg_count (length arg - length r3)
      fetch_at performed (drop offset arg) f m)

  -- `call_idris2_2arg(CMD_STORE_TEST_EVENT, block, event_type)` for each event.
  unfoldable pub store_events : List (ℕ × ℕ) → Machine S → Option (Machine S)
  store_events [] m = some m
  store_events ((block, event_type) ∷ es) m = do
    (result, m') ← call_idris2_2arg main 33 block event_type m
    store_events es m'

-- The loop over the braces: the bytes up to the one that closes the first.
unfoldable pub closed : List ℕ → ℕ → Option (List ℕ)
closed [] brace_count = none
closed (c ∷ cs) brace_count =
    let count =
      if c == b'{' then brace_count + 1 else if c == b'}' then brace_count - 1 else brace_count in
    let more = closed cs count in
    if c == b'}' && count == 0
    then some (c ∷ [])
    else elim more [ none ↦ none | some js ↦ some (c ∷ js) ]

-- Without a closing brace it is the first byte.
unfoldable pub json_of : List ℕ → List ℕ
json_of bs = elim (closed bs 0) [ none ↦ take 1 bs | some js ↦ js ]

-- The events of the first object in the reply.
unfoldable pub fetched_events : List ℕ → List (ℕ × ℕ)
fetched_events buf = elim (find_after 10 json_start (drop 10 buf)) [
  | none ↦ []
  | some rest ↦ parse_and_store_logs (json_of (json_start ++ rest))
]

unfoldable pub fetched_text : Fetch → ℕ → List ℕ
fetched_text f events_stored =
    from_block_text
    ++ (decimal f.from_block
        ++ (to_block_text
            ++ (decimal f.to_block
                ++ (events_stored_text ++ (decimal events_stored ++ (b'}' ∷ []))))))

unfoldable pub fetch_logs_reply_callback :
    {S : Type 0}
    → (Machine S → Option (Machine S))
    → List ℕ
    → Fetch
    → Machine S
    → Option (List ℕ × Machine S)
fetch_logs_reply_callback main msg f m = do
  let events = fetched_events (take 8192 msg)
  m' ← store_events main events m
  some (reply_candid_text (fetched_text f (length events)), m')

unfoldable pub fetch_logs_reject_callback : ℕ → List ℕ
fetch_logs_reject_callback reject_code = reply_candid_text (
    fetch_rejected_text
    ++ ((if leb 10 reject_code then u8 (48 + reject_code / 10) ∷ [] else [])
        ++ ((48 + reject_code % 10) ∷ b'}' ∷ [])))
