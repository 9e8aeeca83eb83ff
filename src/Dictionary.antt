-- ===== src/Dictionary.antt =====
-- The query of a dictionary contract in lib/ic0/canister_entry.c: the handler `queryDictionary`, its
-- JSON request, and the callback that answers when the reply comes.
-- `none`: a shift that C leaves undefined, or a trap of the Idris2 code.
pub mod Reply
pub mod Outstanding
mod Tests
use idris2_ouc.Base.{
  ℕ, zero, suc, ◌+◌, ◌-◌, ◌<◌, List, [], ◌∷◌, ◌++◌, Option, none, some, ◌>>=◌, Bool, true, false,
  ◌&&◌, ◌||◌, not, ltb, leb, ◌==◌, if◌then◌else◌, length, take, drop, replicate, get_or, joined,
}
use idris2_ouc.Leb128.{parse_leb128}
use idris2_ouc.Candid.{load_candid_args, skip_types, reply_candid_text}
use idris2_ouc.Handlers.{text_chars}
use idris2_ouc.HttpReply.{digits4}
use idris2_ouc.EvmLogs.{find_after}
use idris2_ouc.Idris.{Machine}
use idris2_ouc.EvmRpc.{Answer, request_evm_rpc}

-- `g_query_dict_addr` and `g_query_selector`: their characters before the NUL.
pub record Query : Type 0 where
  pub dict_addr : List ℕ
  pub selector : List ℕ

abbrev pub eth_call_text : List ℕ
eth_call_text =
    b'{' ∷ b'"' ∷ b'j' ∷ b's' ∷ b'o' ∷ b'n' ∷ b'r' ∷ b'p' ∷ b'c' ∷ b'"' ∷ b':' ∷ b'"' ∷ b'2' ∷ b'.'
    ∷ b'0' ∷ b'"' ∷ b',' ∷ b'"' ∷ b'm' ∷ b'e' ∷ b't' ∷ b'h' ∷ b'o' ∷ b'd' ∷ b'"' ∷ b':' ∷ b'"'
    ∷ b'e' ∷ b't' ∷ b'h' ∷ b'_' ∷ b'c' ∷ b'a' ∷ b'l' ∷ b'l' ∷ b'"' ∷ b',' ∷ b'"' ∷ b'p' ∷ b'a'
    ∷ b'r' ∷ b'a' ∷ b'm' ∷ b's' ∷ b'"' ∷ b':' ∷ b'[' ∷ b'{' ∷ b'"' ∷ b't' ∷ b'o' ∷ b'"' ∷ b':'
    ∷ b'"' ∷ []

abbrev pub data_text : List ℕ
data_text =
    b'"' ∷ b',' ∷ b'"' ∷ b'd' ∷ b'a' ∷ b't' ∷ b'a' ∷ b'"' ∷ b':' ∷ b'"' ∷ b'0' ∷ b'x' ∷ b'd' ∷ b'c'
    ∷ b'9' ∷ b'c' ∷ b'c' ∷ b'6' ∷ b'4' ∷ b'5' ∷ []

abbrev pub latest_text : List ℕ
latest_text =
    b'"' ∷ b'}' ∷ b',' ∷ b'"' ∷ b'l' ∷ b'a' ∷ b't' ∷ b'e' ∷ b's' ∷ b't' ∷ b'"' ∷ b']' ∷ b',' ∷ b'"'
    ∷ b'i' ∷ b'd' ∷ b'"' ∷ b':' ∷ b'1' ∷ b'}' ∷ []

-- `p[0] == '0' && (p[1] == 'x' || p[1] == 'X')`.
unfoldable pub skip_prefix : List ℕ → List ℕ
skip_prefix text =
    if get_or text 0 0 == b'0' && (get_or text 1 0 == b'x' || get_or text 1 0 == b'X')
    then drop 2 text
    else text

unfoldable pub build_dict_query_json : List ℕ → List ℕ → List ℕ
build_dict_query_json dict_addr func_selector =
    eth_call_text
    ++ (dict_addr
        ++ (data_text ++ (take 8 (skip_prefix func_selector) ++ (replicate 56 48 ++ latest_text))))

abbrev pub invalid_args_text : List ℕ
invalid_args_text =
    b'{' ∷ b'"' ∷ b'e' ∷ b'r' ∷ b'r' ∷ b'o' ∷ b'r' ∷ b'"' ∷ b':' ∷ b'"' ∷ b'i' ∷ b'n' ∷ b'v' ∷ b'a'
    ∷ b'l' ∷ b'i' ∷ b'd' ∷ b'_' ∷ b'a' ∷ b'r' ∷ b'g' ∷ b's' ∷ b'"' ∷ b'}' ∷ []

abbrev pub need_two_text : List ℕ
need_two_text =
    b'{' ∷ b'"' ∷ b'e' ∷ b'r' ∷ b'r' ∷ b'o' ∷ b'r' ∷ b'"' ∷ b':' ∷ b'"' ∷ b'n' ∷ b'e' ∷ b'e' ∷ b'd'
    ∷ b'_' ∷ b'2' ∷ b'_' ∷ b'a' ∷ b'r' ∷ b'g' ∷ b's' ∷ b'"' ∷ b'}' ∷ []

abbrev pub addr_too_long_text : List ℕ
addr_too_long_text =
    b'{' ∷ b'"' ∷ b'e' ∷ b'r' ∷ b'r' ∷ b'o' ∷ b'r' ∷ b'"' ∷ b':' ∷ b'"' ∷ b'd' ∷ b'i' ∷ b'c' ∷ b't'
    ∷ b'_' ∷ b'a' ∷ b'd' ∷ b'd' ∷ b'r' ∷ b'_' ∷ b't' ∷ b'o' ∷ b'o' ∷ b'_' ∷ b'l' ∷ b'o' ∷ b'n'
    ∷ b'g' ∷ b'"' ∷ b'}' ∷ []

abbrev pub selector_too_long_text : List ℕ
selector_too_long_text =
    b'{' ∷ b'"' ∷ b'e' ∷ b'r' ∷ b'r' ∷ b'o' ∷ b'r' ∷ b'"' ∷ b':' ∷ b'"' ∷ b's' ∷ b'e' ∷ b'l' ∷ b'e'
    ∷ b'c' ∷ b't' ∷ b'o' ∷ b'r' ∷ b'_' ∷ b't' ∷ b'o' ∷ b'o' ∷ b'_' ∷ b'l' ∷ b'o' ∷ b'n' ∷ b'g'
    ∷ b'"' ∷ b'}' ∷ []

abbrev pub refuse : List ℕ → Answer
refuse text = record { reply = some (reply_candid_text text); call = none }

-- A text of at most `max` bytes behind its length; the inner `none` is one that is longer, or that does not
-- end in the message.
unfoldable pub parse_short_text : ℕ → List ℕ → Option (Option (List ℕ × List ℕ))
parse_short_text max bytes = do
  (n, rest) ← parse_leb128 bytes
  if ltb max n || ltb (length rest) n then some none else some (some (take n rest, drop n rest))

module _ {S : Type 0} (main : Machine S → Option (Machine S)) where
  -- The selector, behind the address that is stored already.
  unfoldable pub query_selector :
      ℕ → List ℕ → Query → Machine S → Option (Answer × Query × Machine S)
  query_selector performed bytes q m = do
    found ← parse_short_text 11 bytes
    elim found [
      | none ↦ some (refuse selector_too_long_text, q, m)
      | some (text, rest) ↦ do
        let q' = record q { selector = text_chars text }
        (answer, m') ←
            request_evm_rpc main (build_dict_query_json q'.dict_addr q'.selector) 1 2000 performed m
        some (answer, q', m')
    ]

  -- With fewer than two type codes the offset is behind the message, which the first bound refuses.
  unfoldable pub canister_update_query_dictionary :
      ℕ → List ℕ → Query → Machine S → Option (Answer × Query × Machine S)
  canister_update_query_dictionary performed msg q m =
      let arg = load_candid_args msg in
      if ltb (length arg) 10 then some (refuse invalid_args_text, q, m) else (do
        (type_count, r1) ← parse_leb128 (drop 4 arg)
        r2 ← skip_types type_count r1
        (arg_count, r3) ← parse_leb128 r2
        if ltb arg_count 2
            then some (refuse need_two_text, q, m)
            else if ltb (length r3) 2
            then some (refuse addr_too_long_text, q, m)
            else (do
              found ← parse_short_text 43 (drop 2 r3)
              elim found [
                | none ↦ some (refuse addr_too_long_text, q, m)
                | some (text, rest) ↦
                    query_selector performed rest (record q { dict_addr = text_chars text }) m
              ]))

abbrev pub result_name : List ℕ
result_name = b'r' ∷ b'e' ∷ b's' ∷ b'u' ∷ b'l' ∷ b't' ∷ []

abbrev pub hex_prefix : List ℕ
hex_prefix = b'0' ∷ b'x' ∷ []

unfoldable pub is_hex : ℕ → Bool
is_hex c = leb 48 c && leb c 57 || (leb 97 c && leb c 102 || (leb 65 c && leb c 70 || c == b'x'))

-- The hexadecimal characters from here on, `n` at most.
unfoldable pub hex_run : ℕ → List ℕ → List ℕ
hex_run zero bs = []
hex_run (suc n) [] = []
hex_run (suc n) (c ∷ cs) = let more = hex_run n cs in if is_hex c then c ∷ more else []

abbrev pub dictionary_text : List ℕ
dictionary_text =
    b'{' ∷ b'"' ∷ b'd' ∷ b'i' ∷ b'c' ∷ b't' ∷ b'i' ∷ b'o' ∷ b'n' ∷ b'a' ∷ b'r' ∷ b'y' ∷ b'"' ∷ b':'
    ∷ b'"' ∷ []

abbrev pub selector_text : List ℕ
selector_text =
    b'"' ∷ b',' ∷ b'"' ∷ b's' ∷ b'e' ∷ b'l' ∷ b'e' ∷ b'c' ∷ b't' ∷ b'o' ∷ b'r' ∷ b'"' ∷ b':' ∷ b'"'
    ∷ []

abbrev pub implementation_text : List ℕ
implementation_text =
    b'"' ∷ b',' ∷ b'"' ∷ b'i' ∷ b'm' ∷ b'p' ∷ b'l' ∷ b'e' ∷ b'm' ∷ b'e' ∷ b'n' ∷ b't' ∷ b'a' ∷ b't'
    ∷ b'i' ∷ b'o' ∷ b'n' ∷ b'"' ∷ b':' ∷ b'"' ∷ b'0' ∷ b'x' ∷ []

abbrev pub no_result_text : List ℕ
no_result_text =
    b'{' ∷ b'"' ∷ b'e' ∷ b'r' ∷ b'r' ∷ b'o' ∷ b'r' ∷ b'"' ∷ b':' ∷ b'"' ∷ b'n' ∷ b'o' ∷ b'_' ∷ b'r'
    ∷ b'e' ∷ b's' ∷ b'u' ∷ b'l' ∷ b't' ∷ b'"' ∷ b',' ∷ b'"' ∷ b'r' ∷ b'a' ∷ b'w' ∷ b'L' ∷ b'e'
    ∷ b'n' ∷ b'"' ∷ b':' ∷ []

-- The last 40 of more than 42 characters, or all behind the 0x.
unfoldable pub address_of : List ℕ → List ℕ
address_of hex = drop (if ltb 42 (length hex) then length hex - 40 else 2) hex

-- The limits of the source on the length are not reached: the stored texts have at most 43 and 11
-- characters, and the address at most 64.
unfoldable pub implementation_json : List ℕ → Query → List ℕ
implementation_json address q =
    dictionary_text
    ++ (q.dict_addr
        ++ (selector_text
            ++ (q.selector ++ (implementation_text ++ (address ++ (b'"' ∷ b'}' ∷ []))))))

-- The implementation in a reply. Only the first "result" counts.
unfoldable pub find_implementation : List ℕ → Option (List ℕ)
find_implementation buf = elim (find_after 20 result_name (drop 10 buf)) [
  | none ↦ none
  | some bs ↦ elim (find_after 2 hex_prefix bs) [
    | none ↦ none
    | some cs ↦ some (address_of (hex_run 66 (hex_prefix ++ cs)))
  ]
]

unfoldable pub dict_query_reply_callback : List ℕ → Query → List ℕ
dict_query_reply_callback msg q =
    let buf = take 4096 msg in
    elim (find_implementation buf) [
      | none ↦ reply_candid_text (no_result_text ++ (digits4 (length buf) ++ (b'}' ∷ [])))
      | some address ↦ reply_candid_text (implementation_json address q)
    ]
