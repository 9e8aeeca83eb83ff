-- ===== src/Monitor/Arguments.antt =====
-- `canister_update_registerMonitor` of lib/ic0/canister_entry.c with the parsing of its arguments. The
-- texts are copied from `arg_buf` without a look at the length of the message, so `old`, its 1024 bytes
-- before the message came, is an argument. `none`: C reads outside of the buffer, or shifts by 64
-- bits or more.
pub mod Message
use idris2_ouc.Base.{
  ℕ, ◌+◌, ◌-◌, ◌<◌, List, ◌++◌, Option, none, some, ◌>>=◌, Bool, ◌||◌, ltb, leb, if◌then◌else◌,
  length, take, drop, min,
}
use idris2_ouc.Word.{u32}
use idris2_ouc.Word.Bytes.{read_u32}
use idris2_ouc.Leb128.{parse_leb128}
use idris2_ouc.Candid.{reply_candid_text, load_candid_args, skip_types}
use idris2_ouc.Handlers.{text_chars}
use idris2_ouc.Dictionary.{invalid_args_text}
use idris2_ouc.Monitor.{MonitoredContract, register_monitor}

-- `parse_leb128` at an offset, which may lie behind the message: the number and the new offset.
unfoldable pub parse_leb128_from : List ℕ → ℕ → Option (ℕ × ℕ)
parse_leb128_from arg offset = do
  (v, rest) ← parse_leb128 (drop offset arg)
  some (v, offset + (length (drop offset arg) - length rest))

-- The characters of a text before a NUL, `max` at most, and the offset behind it, an int32_t. What
-- stands behind a NUL is copied too, but no comparison and no response gets past the NUL.
unfoldable pub parse_text : ℕ → List ℕ → List ℕ → ℕ → Option (List ℕ × ℕ)
parse_text max arg old offset = do
  (len, o) ← parse_leb128_from arg offset
  let n = min len max
  let next = u32 (o + len)
  if ltb 1024 (o + n) || leb 2147483644 next
      then none
      else some (text_chars (take n (drop o (arg ++ drop (length arg) old))), next)

-- The number behind the texts, or 0.
unfoldable pub parse_chain_id : List ℕ → ℕ → ℕ
parse_chain_id arg offset = if leb (offset + 4) (length arg) then read_u32 (drop offset arg) else 0

unfoldable pub canister_update_register_monitor :
    List ℕ → List ℕ → List MonitoredContract → Option (List ℕ × List MonitoredContract)
canister_update_register_monitor msg old s =
    let arg = load_candid_args msg in
    if ltb (length arg) 10 then some (reply_candid_text invalid_args_text, s) else (do
      (type_count, r1) ← parse_leb128 (drop 4 arg)
      r2 ← skip_types type_count r1
      (arg_count, r3) ← parse_leb128 r2
      (dict_addr, o1) ← parse_text 42 arg old (length arg - length r3 + 3)
      (selector, o2) ← parse_text 10 arg old o1
      some (register_monitor dict_addr selector (parse_chain_id arg o2) s))
