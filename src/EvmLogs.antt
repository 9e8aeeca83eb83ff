-- ===== src/EvmLogs.antt =====
-- Fetching the logs of EVM contracts in lib/ic0/canister_entry.c: the JSON request
-- (`build_eth_get_logs_json`) and the scan of the reply (`parse_and_store_logs`). The outcall itself is in
-- FetchLogs; a reply is the list of its bytes.
pub mod Fields
pub mod Hex
pub mod Stored
pub mod Objects
pub mod Plain
pub mod Format
pub mod Request
mod Tests
use idris2_ouc.Base.{
  ℕ, zero, suc, ◌+◌, ◌-◌, ◌*◌, ◌/◌, ◌%◌, List, [], ◌∷◌, ◌++◌, Bool, true, false, Option, none, some,
  ltb, leb, ◌==◌, ◌&&◌, ◌||◌, not, if◌then◌else◌, length, take, drop, get_or, bit_or,
}
use idris2_ouc.Word.{u32, u64}

-- The texts of the request.
abbrev pub request_text : List ℕ
request_text =
    b'{' ∷ b'"' ∷ b'j' ∷ b's' ∷ b'o' ∷ b'n' ∷ b'r' ∷ b'p' ∷ b'c' ∷ b'"' ∷ b':' ∷ b'"' ∷ b'2' ∷ b'.'
    ∷ b'0' ∷ b'"' ∷ b',' ∷ b'"' ∷ b'm' ∷ b'e' ∷ b't' ∷ b'h' ∷ b'o' ∷ b'd' ∷ b'"' ∷ b':' ∷ b'"'
    ∷ b'e' ∷ b't' ∷ b'h' ∷ b'_' ∷ b'g' ∷ b'e' ∷ b't' ∷ b'L' ∷ b'o' ∷ b'g' ∷ b's' ∷ b'"' ∷ b','
    ∷ b'"' ∷ b'p' ∷ b'a' ∷ b'r' ∷ b'a' ∷ b'm' ∷ b's' ∷ b'"' ∷ b':' ∷ b'[' ∷ b'{' ∷ []

abbrev pub from_text : List ℕ
from_text =
    b'"' ∷ b'f' ∷ b'r' ∷ b'o' ∷ b'm' ∷ b'B' ∷ b'l' ∷ b'o' ∷ b'c' ∷ b'k' ∷ b'"' ∷ b':' ∷ b'"' ∷ b'0'
    ∷ b'x' ∷ []

abbrev pub to_text : List ℕ
to_text =
    b'"' ∷ b',' ∷ b'"' ∷ b't' ∷ b'o' ∷ b'B' ∷ b'l' ∷ b'o' ∷ b'c' ∷ b'k' ∷ b'"' ∷ b':' ∷ b'"' ∷ b'0'
    ∷ b'x' ∷ []

abbrev pub address_text : List ℕ
address_text =
    b',' ∷ b'"' ∷ b'a' ∷ b'd' ∷ b'd' ∷ b'r' ∷ b'e' ∷ b's' ∷ b's' ∷ b'"' ∷ b':' ∷ b'"' ∷ []

abbrev pub end_text : List ℕ
end_text = b'}' ∷ b']' ∷ b',' ∷ b'"' ∷ b'i' ∷ b'd' ∷ b'"' ∷ b':' ∷ b'1' ∷ b'}' ∷ []

-- What the searches look for.
abbrev pub address_field : List ℕ
address_field = b'a' ∷ b'd' ∷ b'd' ∷ b'r' ∷ b'e' ∷ b's' ∷ b's' ∷ b'"' ∷ b':' ∷ b'"' ∷ []

abbrev pub topics_field : List ℕ
topics_field = b't' ∷ b'o' ∷ b'p' ∷ b'i' ∷ b'c' ∷ b's' ∷ b'"' ∷ b':' ∷ b'[' ∷ b'"' ∷ []

abbrev pub block_field : List ℕ
block_field =
    b'b' ∷ b'l' ∷ b'o' ∷ b'c' ∷ b'k' ∷ b'N' ∷ b'u' ∷ b'm' ∷ b'b' ∷ b'e' ∷ b'r' ∷ b'"' ∷ b':' ∷ b'"'
    ∷ []

abbrev pub result_field : List ℕ
result_field = b'"' ∷ b'r' ∷ b'e' ∷ b's' ∷ b'u' ∷ b'l' ∷ b't' ∷ b'"' ∷ b':' ∷ b'[' ∷ []

-- `d < 10 ? '0' + d : 'a' + d - 10`.
unfoldable pub hex_digit : ℕ → ℕ
hex_digit d = if ltb d 10 then 48 + d else 87 + d

-- `while (n > 0) { d = n & 0xF; hex[hlen++] = ...; n >>= 4; }` and the loop that turns the digits round.
unfoldable pub hex_loop : ℕ → ℕ → List ℕ → List ℕ
hex_loop zero n acc = acc
hex_loop (suc fuel) n acc =
    let more = hex_loop fuel (n / 16) (hex_digit (n % 16) ∷ acc) in if n == 0 then acc else more

-- 16 digits are enough for a uint64_t.
unfoldable pub hex_text : ℕ → List ℕ
hex_text n = if n == 0 then 48 ∷ [] else hex_loop 16 n []

-- `address` is the text up to its NUL; the loop copies 42 characters at most.
unfoldable pub build_eth_get_logs_json : ℕ → ℕ → List ℕ → List ℕ
build_eth_get_logs_json from_block to_block address =
    request_text
    ++ (from_text
        ++ (hex_text from_block
            ++ (to_text
                ++ (hex_text to_block
                    ++ (b'"'
                          ∷ (if length address == 0
                              then []
                              else address_text ++ (take 42 address ++ (b'"' ∷ [])))
                        ++ end_text)))))

-- The value of a hexadecimal digit; `none` ends the number.
unfoldable pub hex_value : ℕ → Option ℕ
hex_value c =
    if leb 48 c && leb c 57
    then some (c - 48)
    else if leb 97 c && leb c 102
    then some (c - 87)
    else if leb 65 c && leb c 70
    then some (c - 55)
    else none

unfoldable pub parse_hex_loop : List ℕ → ℕ → ℕ
parse_hex_loop [] result = result
parse_hex_loop (c ∷ hex) result = elim (hex_value c) [
  | none ↦ result
  | some d ↦ parse_hex_loop hex (bit_or d (u64 (result * 16)))
]

unfoldable pub parse_hex_uint64 : List ℕ → ℕ
parse_hex_uint64 hex =
    if leb 2 (length hex)
      && (get_or hex 0 0 == 48 && (get_or hex 1 0 == 120 || get_or hex 1 0 == 88))
    then parse_hex_loop (drop 2 hex) 0
    else parse_hex_loop hex 0

unfoldable pub begins : List ℕ → List ℕ → Bool
begins [] bs = true
begins (c ∷ needle) [] = false
begins (c ∷ needle) (b ∷ bs) = c == b && begins needle bs

-- `for (i = 0; i < len - k; i++)` with the comparison of the needle at `i`: the bytes behind the first
-- place that has it, if more than `k` bytes are left there.
unfoldable pub find_after : ℕ → List ℕ → List ℕ → Option (List ℕ)
find_after k needle [] = none
find_after k needle (b ∷ bs) =
    let more = find_after k needle bs in
    if ltb k (length (b ∷ bs)) && begins needle (b ∷ bs)
    then some (drop (length needle) (b ∷ bs))
    else more

-- The bytes up to the next quotation mark, or to the end.
unfoldable pub until_quote : List ℕ → List ℕ
until_quote [] = []
until_quote (c ∷ cs) = let more = until_quote cs in if c == b'"' then [] else c ∷ more

-- The type of an event by two digits of its first topic.
unfoldable pub event_type_of : Option (List ℕ) → ℕ
event_type_of none = 0
event_type_of (some bs) =
    let topic0 = until_quote bs in
    if not (leb 10 (length topic0))
    then 0
    else if get_or topic0 2 0 == b'8' && get_or topic0 3 0 == b'c'
    then 1
    else if get_or topic0 2 0 == b'4' && get_or topic0 3 0 == b'1'
    then 2
    else 0

-- The arguments of CMD_STORE_TEST_EVENT: `(int32_t)block`, as the 32-bit word, and the type. `none`: a
-- field is missing and 0 is returned.
unfoldable pub parse_and_store_log : List ℕ → Option (ℕ × ℕ)
parse_and_store_log log = elim (find_after 12 address_field log) [
  | none ↦ none
  | some address ↦ elim (find_after 15 block_field log) [
    | none ↦ none
    | some bs ↦
        some
          (u32 (parse_hex_uint64 (until_quote bs)), event_type_of (find_after 12 topics_field log))
  ]
]

-- One round of the loop over the array at the byte `c`, with the bytes `cs` behind it: the complete log
-- object, if one ends here, `brace_count` as a 32-bit word, and the bytes from `log_start` on.
unfoldable pub brace_step :
    ℕ → List ℕ → ℕ → Option (List ℕ) → Option (List ℕ) × (ℕ × Option (List ℕ))
brace_step c cs brace start =
    if c == b'{'
    then (none, (u32 (brace + 1), if brace == 0 then some (c ∷ cs) else start))
    else if c == b'}'
    then (let brace' = u32 (brace + 4294967295) in
        elim start [
          | none ↦ (none, (brace', none))
          | some s ↦
              if brace' == 0
              then (some (take (length s - length cs) s), (brace', none))
              else (none, (brace', some s))
        ])
    else (none, (brace, start))

-- In front of the objects that come later.
unfoldable pub with_object : Option (List ℕ) → List (List ℕ) → List (List ℕ)
with_object none objects = objects
with_object (some object) objects = object ∷ objects

-- The log objects in the order in which they are handed to `parse_and_store_log`.
unfoldable pub objects_loop : List ℕ → ℕ → Option (List ℕ) → List (List ℕ)
objects_loop [] brace start = []
objects_loop (c ∷ cs) brace start =
    let (object, (brace', start')) = brace_step c cs brace start in
    let later = objects_loop cs brace' start' in
    if c == b']' && brace == 0 then [] else with_object object later

unfoldable pub store_all : List (List ℕ) → List (ℕ × ℕ)
store_all [] = []
store_all (log ∷ logs) = elim (parse_and_store_log log) [
  | none ↦ store_all logs
  | some event ↦ event ∷ store_all logs
]

-- The events that are stored, in their order; their number is returned.
unfoldable pub parse_and_store_logs : List ℕ → List (ℕ × ℕ)
parse_and_store_logs json = elim (find_after 10 result_field json) [
  | none ↦ []
  | some bs ↦ store_all (objects_loop bs 0 none)
]
