-- ===== src/Monitor/Poll.antt =====
-- Polling a monitored contract in lib/ic0/canister_entry.c: `canister_update_pollContract`, the batch
-- request, and the callbacks of the batch. `none`: a trap, or what C leaves undefined.
pub mod Index
use idris2_ouc.Base.{
  ℕ, zero, suc, ◌+◌, ◌-◌, ◌/◌, ◌%◌, ◌<◌, List, [], ◌∷◌, ◌++◌, Option, none, some, ◌>>=◌, Bool, ◌&&◌,
  ◌||◌, ltb, leb, ◌==◌, if◌then◌else◌, length, take, drop, get_or, replicate, get_elem?,
}
use idris2_ouc.Word.{u8}
use idris2_ouc.Word.Bytes.{read_u32}
use idris2_ouc.Leb128.{parse_leb128}
use idris2_ouc.Candid.{reply_candid_text, load_candid_args, skip_types}
use idris2_ouc.Handlers.{text_chars}
use idris2_ouc.EvmLogs.{begins, find_after, until_quote}
use idris2_ouc.Idris.{Machine, encode_evm_rpc_idris2}
use idris2_ouc.EvmRpc.{Answer}
use idris2_ouc.Dictionary.{refuse, eth_call_text, data_text, latest_text}
use idris2_ouc.FetchLogs.{perform_call, closed, result_digit}
use idris2_ouc.Monitor.{MonitoredContract, two_digits}
use idris2_ouc.Monitor.Status.{dictionary_chars}

-- The contracts, and `g_batch_contract_idx`, an int32_t.
pub record Monitoring : Type 0 where
  pub contracts : List MonitoredContract
  pub batch_contract_idx : ℕ

-- The -1 of an int32_t.
abbrev pub no_batch : ℕ
no_batch = 4294967295

-- The characters of a selector behind its 0x.
unfoldable pub selector_chars : List ℕ → List ℕ
selector_chars row =
    drop (if get_or row 0 0 == b'0' && get_or row 1 0 == b'x' then 2 else 0)
      (take 10 (text_chars row))

-- The call of getImplementation(bytes4), up to its id.
unfoldable pub eth_call_json : MonitoredContract → List ℕ → List ℕ → List ℕ
eth_call_json c row end =
    eth_call_text
    ++ (dictionary_chars c ++ (data_text ++ (selector_chars row ++ (replicate 56 b'0' ++ end))))

abbrev pub latest_id_text : List ℕ
latest_id_text =
    b'"' ∷ b'}' ∷ b',' ∷ b'"' ∷ b'l' ∷ b'a' ∷ b't' ∷ b'e' ∷ b's' ∷ b't' ∷ b'"' ∷ b']' ∷ b',' ∷ b'"'
    ∷ b'i' ∷ b'd' ∷ b'"' ∷ b':' ∷ []

unfoldable pub batch_loop : MonitoredContract → ℕ → List (List ℕ) → List ℕ
batch_loop c i [] = []
batch_loop c i (row ∷ rows) =
    let more = batch_loop c (i + 1) rows in
    (if i == 0 then [] else b',' ∷ [])
    ++ eth_call_json c row (latest_id_text ++ (two_digits (i + 1) ++ (b'}' ∷ more)))

unfoldable pub build_batch_query_json : MonitoredContract → List ℕ
build_batch_query_json c = b'[' ∷ batch_loop c 0 c.selectors ++ (b']' ∷ [])

abbrev pub invalid_index_text : List ℕ
invalid_index_text =
    b'{' ∷ b'"' ∷ b'e' ∷ b'r' ∷ b'r' ∷ b'o' ∷ b'r' ∷ b'"' ∷ b':' ∷ b'"' ∷ b'i' ∷ b'n' ∷ b'v' ∷ b'a'
    ∷ b'l' ∷ b'i' ∷ b'd' ∷ b'_' ∷ b'c' ∷ b'o' ∷ b'n' ∷ b't' ∷ b'r' ∷ b'a' ∷ b'c' ∷ b't' ∷ b'_'
    ∷ b'i' ∷ b'n' ∷ b'd' ∷ b'e' ∷ b'x' ∷ b'"' ∷ b'}' ∷ []

abbrev pub no_selectors_text : List ℕ
no_selectors_text =
    b'{' ∷ b'"' ∷ b'e' ∷ b'r' ∷ b'r' ∷ b'o' ∷ b'r' ∷ b'"' ∷ b':' ∷ b'"' ∷ b'n' ∷ b'o' ∷ b'_' ∷ b's'
    ∷ b'e' ∷ b'l' ∷ b'e' ∷ b'c' ∷ b't' ∷ b'o' ∷ b'r' ∷ b's' ∷ b'"' ∷ b'}' ∷ []

-- The index in a message; a nat32 behind its type code, or 0.
unfoldable pub parse_index : List ℕ → Option ℕ
parse_index arg = if ltb (length arg) 12 then some 0 else (do
  (type_count, r1) ← parse_leb128 (drop 4 arg)
  r2 ← skip_types type_count r1
  (arg_count, r3) ← parse_leb128 r2
  some (if ltb (length (drop 1 r3)) 4 then 0 else read_u32 (drop 1 r3)))

module _ {S : Type 0} (main : Machine S → Option (Machine S)) where
  -- A request that the Idris2 code does not encode is answered by nothing.
  unfoldable pub request_contract :
      ℕ
      → ℕ
      → MonitoredContract
      → List ℕ
      → Monitoring
      → Machine S
      → Option (Answer × Monitoring × Machine S)
  request_contract performed idx c row s m = do
    (candid_len, m') ←
        encode_evm_rpc_idris2 main (eth_call_json c row latest_text) c.chain_id 2000 m
    if leb 2147483648 candid_len
        then some (record { reply = none; call = none }, s, m')
        else some (
          perform_call performed 1000000000 candid_len m'.candid.buf,
          record s { batch_contract_idx = if performed == 0 then idx else no_batch },
          m',
        )

  -- The first selector of the contract at an index, an int32_t.
  unfoldable pub poll_at : ℕ → ℕ → Monitoring → Machine S → Option (Answer × Monitoring × Machine S)
  poll_at performed idx s m = elim (get_elem? s.contracts idx) [
    | none ↦ some (refuse invalid_index_text, s, m)
    | some c ↦ elim c.selectors [
      | [] ↦ some (refuse no_selectors_text, s, m)
      | row ∷ rows ↦ request_contract performed idx c row s m
    ]
  ]

  unfoldable pub canister_update_poll_contract :
      ℕ → List ℕ → Monitoring → Machine S → Option (Answer × Monitoring × Machine S)
  canister_update_poll_contract performed msg s m = do
    idx ← parse_index (load_candid_args msg)
    if leb 2147483648 idx then some (refuse invalid_index_text, s, m) else poll_at performed idx s m

abbrev pub jsonrpc_start : List ℕ
jsonrpc_start = b'{' ∷ b'"' ∷ b'j' ∷ b's' ∷ b'o' ∷ b'n' ∷ []

abbrev pub result_key : List ℕ
result_key = b'"' ∷ b'r' ∷ b'e' ∷ b's' ∷ b'u' ∷ b'l' ∷ b't' ∷ b'"' ∷ []

abbrev pub batch_results_text : List ℕ
batch_results_text =
    b'{' ∷ b'"' ∷ b'b' ∷ b'a' ∷ b't' ∷ b'c' ∷ b'h' ∷ b'R' ∷ b'e' ∷ b's' ∷ b'u' ∷ b'l' ∷ b't' ∷ b's'
    ∷ b'"' ∷ b':' ∷ b'[' ∷ []

abbrev pub count_text : List ℕ
count_text = b']' ∷ b',' ∷ b'"' ∷ b'c' ∷ b'o' ∷ b'u' ∷ b'n' ∷ b't' ∷ b'"' ∷ b':' ∷ []

abbrev pub contract_idx_text : List ℕ
contract_idx_text =
    b',' ∷ b'"' ∷ b'c' ∷ b'o' ∷ b'n' ∷ b't' ∷ b'r' ∷ b'a' ∷ b'c' ∷ b't' ∷ b'I' ∷ b'd' ∷ b'x' ∷ b'"'
    ∷ b':' ∷ []

abbrev pub batch_rejected_text : List ℕ
batch_rejected_text =
    b'{' ∷ b'"' ∷ b'e' ∷ b'r' ∷ b'r' ∷ b'o' ∷ b'r' ∷ b'"' ∷ b':' ∷ b'"' ∷ b'b' ∷ b'a' ∷ b't' ∷ b'c'
    ∷ b'h' ∷ b'_' ∷ b'q' ∷ b'u' ∷ b'e' ∷ b'r' ∷ b'y' ∷ b'_' ∷ b'r' ∷ b'e' ∷ b'j' ∷ b'e' ∷ b'c'
    ∷ b't' ∷ b'e' ∷ b'd' ∷ b'"' ∷ b',' ∷ b'"' ∷ b'c' ∷ b'o' ∷ b'd' ∷ b'e' ∷ b'"' ∷ b':' ∷ []

-- `while (j < arg_size && (buf[j] == ':' || buf[j] == ' ')) j++`.
unfoldable pub skip_colons : List ℕ → List ℕ
skip_colons [] = []
skip_colons (c ∷ cs) = let more = skip_colons cs in if c == b':' || c == b' ' then more else c ∷ cs

-- What the response gets at a place of the reply: a string behind "result", while it has fewer than
-- 1950 characters. `none`: the byte behind the reply is read.
unfoldable pub entry_at : ℕ → ℕ → List ℕ → Option (List ℕ)
entry_at len count bs =
    let comma = if count == 0 then [] else b',' ∷ [] in
    if begins result_key bs
    then elim (skip_colons (drop 8 bs)) [
      | [] ↦ none
      | c ∷ cs ↦ some (
          if c == b'"'
          then comma
            ++ (b'"' ∷ take (1950 - (len + length comma + 1)) (until_quote cs) ++ (b'"' ∷ []))
          else [])
    ]
    else some []

-- `n` places from here on, while the response has fewer than 1900 characters.
unfoldable pub results_loop : ℕ → ℕ → ℕ → List ℕ → Option (List ℕ × ℕ)
results_loop zero len count bs = some ([], count)
results_loop (suc n) len count [] = some ([], count)
results_loop (suc n) len count (b ∷ bs) =
    if ltb len 1900
    then (do
      entry ← entry_at len count (b ∷ bs)
      (more, total) ←
          results_loop n (len + length entry) (if length entry == 0 then count else count + 1) bs
      some (entry ++ more, total))
    else some ([], count)

-- The search from the JSON of the reply up to its last brace, or up to the end of the reply.
unfoldable pub batch_results : List ℕ → Option (List ℕ × ℕ)
batch_results buf = elim (find_after 10 jsonrpc_start (drop 4 buf)) [
  | none ↦ results_loop (length buf - 20) (length batch_results_text) 0 (drop 10 buf)
  | some rest ↦
      let json = jsonrpc_start ++ rest in
      results_loop (elim (closed json 0) [ none ↦ length json - 10 | some js ↦ length js - 10 ])
        (length batch_results_text) 0 json
]

-- The last digits of an index, an int32_t.
unfoldable pub index_digits : ℕ → List ℕ
index_digits idx =
    (if leb 10 idx && ltb idx 2147483648 then u8 (48 + idx / 10) ∷ [] else [])
    ++ (result_digit idx ∷ [])

unfoldable pub batch_text : List ℕ → ℕ → ℕ → List ℕ
batch_text results count idx =
    batch_results_text
    ++ (results
        ++ (count_text
            ++ (two_digits count ++ (contract_idx_text ++ (index_digits idx ++ (b'}' ∷ []))))))

unfoldable pub batch_query_reply_callback : List ℕ → Monitoring → Option (List ℕ × Monitoring)
batch_query_reply_callback msg s = do
  (results, count) ← batch_results (take 8192 msg)
  let text = text_chars (batch_text results count s.batch_contract_idx)
  some (reply_candid_text text, record s { batch_contract_idx = no_batch })

unfoldable pub batch_query_reject_callback : ℕ → Monitoring → List ℕ × Monitoring
batch_query_reject_callback reject_code s = (
  reply_candid_text (
      batch_rejected_text
      ++ ((if leb 10 reject_code then u8 (48 + reject_code / 10) ∷ [] else [])
          ++ ((48 + reject_code % 10) ∷ b'}' ∷ []))),
  record s { batch_contract_idx = no_batch },
)
