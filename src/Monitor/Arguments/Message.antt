-- ===== src/Monitor/Arguments/Message.antt =====
-- What `canister_update_registerMonitor` of lib/ic0/canister_entry.c reads of a message of its type.
use idris2_ouc.Base.{
  ℕ, ◌+◌, ◌-◌, ◌≤◌, ◌<◌, ◌≡◌, ◌≢◌, ◌∙◌, refl, sym, ap, List, [], ◌∷◌, ◌++◌, some, length,
  length-append, drop, take, All, arith, append_assoc, ltb, leb, ◌||◌, true, false, min,
}
use idris2_ouc.Base.Split.{drop-append, take-append}
use idris2_ouc.Word.{IsU32, u32}
use idris2_ouc.Word.Bytes.{write_u32, read_u32-write_u32_end}
use idris2_ouc.Leb128.{encode_leb128, parse_leb128, parse_leb128_loop}
use idris2_ouc.Leb128.RoundTrip.{parse-encode}
use idris2_ouc.Candid.{didl, skip_types}
use idris2_ouc.Candid.RoundTrip.{load_short}
use idris2_ouc.Handlers.{text_chars}
use idris2_ouc.Dictionary.Outstanding.{text_arg, text_chars-All, length-text_arg}
use idris2_ouc.Monitor.{MonitoredContract, register_monitor}
use idris2_ouc.Monitor.Arguments.{
  parse_leb128_from, parse_text, parse_chain_id, canister_update_register_monitor,
}

text_lem :
    (max len o offset : ℕ) (arg old : List ℕ)
    → parse_leb128_from arg offset ≡ some (len, o)
    → len ≤ max
    → o + len ≤ 1024
    → parse_text max arg old offset
      ≡ some (text_chars (take len (drop o (arg ++ drop (length arg) old))), o + len)
unfolding parse_text
text_lem max len o offset arg old e fits inside = rw (parse_text, e, smaller, guard, word) refl
  where
    smaller : min len max ≡ len
    smaller = omega arith

    word : u32 (o + len) ≡ o + len
    word = omega arith

    guard : (ltb 1024 (o + len) || leb 2147483644 (u32 (o + len))) ≡ false
    guard = ground arith

from_lem :
    (before text rest : List ℕ)
    → length text < 65536
    → parse_leb128_from (before ++ text_arg text rest) (length before)
      ≡ some (length text, length before + length (encode_leb128 10 (length text)))
unfolding parse_leb128_from text_arg
from_lem before text rest h =
    let n = encode_leb128 10 (length text) in
    rw
      (
        drop-append before (n ++ (text ++ rest)),
        parse-encode (length text) (text ++ rest) (omega arith),
      )
      (ap (λ k. some (length text, length before + k))
        {x = length (n ++ (text ++ rest)) - length (text ++ rest)} {y = length n}
        (omega (arith, length-append n (text ++ rest))))

-- The bytes of a text are found at its offset, whatever stands behind the message.
found_lem :
    (before text rest tail : List ℕ)
    → let n = encode_leb128 10 (length text) in
      take (length text) (drop (length before + length n) ((before ++ text_arg text rest) ++ tail))
      ≡ text
unfolding text_arg
found_lem before text rest tail =
    let n = encode_leb128 10 (length text) in
    let whole : (before ++ (n ++ (text ++ rest))) ++ tail
        ≡ (before ++ n) ++ (text ++ (rest ++ tail)) =
      simp append_assoc in
    ap (λ k. take (length text) (drop k ((before ++ (n ++ (text ++ rest))) ++ tail)))
      (sym (length-append before n))
    ∙ ap (λ l. take (length text) (drop (length (before ++ n)) l)) whole
    ∙ ap (take (length text)) (drop-append (before ++ n) (text ++ (rest ++ tail)))
    ∙ take-append text (rest ++ tail)

-- A text that stands at an offset of the message is read, and the offset behind it is found.
parse_text-text_arg :
    (max : ℕ) (before text rest old : List ℕ)
    → length text ≤ max
    → max < 65536
    → All (λ c. c ≢ 0) text
    → length (before ++ text_arg text rest) ≤ 1024
    → parse_text max (before ++ text_arg text rest) old (length before)
      ≡ some (text, length before + length (encode_leb128 10 (length text)) + length text)
parse_text-text_arg max before text rest old h bound plain short =
    let n = encode_leb128 10 (length text) in
    let arg = before ++ text_arg text rest in
    text_lem max (length text) (length before + length n) (length before) arg old
      (from_lem before text rest (omega arith)) h inside
    ∙ ap (λ t. some (t, length before + length n + length text))
        (ap text_chars (found_lem before text rest (drop (length arg) old))
          ∙ text_chars-All text plain)
  where
    inside : length before + length (encode_leb128 10 (length text)) + length text ≤ 1024
    inside =
        unfold text_arg in
        omega (
          arith,
          length-append before (text_arg text rest),
          length-append (encode_leb128 10 (length text)) (text ++ rest),
          length-append text rest,
        )

-- The Candid message of two texts and a number of the type nat32.
unfoldable pub register_message : List ℕ → List ℕ → ℕ → List ℕ
register_message address selector chain_id =
    didl ++ (0 ∷ 3 ∷ 0x71 ∷ 0x71 ∷ 0x79 ∷ text_arg address (text_arg selector (write_u32 chain_id)))

-- Up to the first text.
abbrev start : List ℕ
start = didl ++ (0 ∷ 3 ∷ 0x71 ∷ 0x71 ∷ 0x79 ∷ [])

args_lem :
    (o1 o2 : ℕ) (values address selector old : List ℕ) (s : List MonitoredContract)
    → length (start ++ values) ≤ 1024
    → 1 ≤ length values
    → parse_text 42 (start ++ values) old 9 ≡ some (address, o1)
    → parse_text 10 (start ++ values) old o1 ≡ some (selector, o2)
    → canister_update_register_monitor (start ++ values) old s
      ≡ some (register_monitor address selector (parse_chain_id (start ++ values) o2) s)
unfolding canister_update_register_monitor skip_types parse_leb128 parse_leb128_loop
args_lem o1 o2 values address selector old s short long e1 e2 =
    rw
      (canister_update_register_monitor, load_short (start ++ values) short, enough, offset, e1, e2)
      refl
  where
    enough : ltb (length (start ++ values)) 10 ≡ false
    enough = ground arith

    offset : length (start ++ values) - length (0x71 ∷ 0x71 ∷ 0x79 ∷ values) + 3 ≡ 9
    offset = omega arith

chain_lem :
    (before : List ℕ) (chain_id : ℕ)
    → IsU32 chain_id
    → parse_chain_id (before ++ write_u32 chain_id) (length before) ≡ chain_id
unfolding parse_chain_id
chain_lem before chain_id h =
    rw
      (
        parse_chain_id,
        enough,
        drop-append before (write_u32 chain_id),
        read_u32-write_u32_end chain_id h,
      )
      refl
  where
    enough : leb (length before + 4) (length (before ++ write_u32 chain_id)) ≡ true
    enough = unfold write_u32 in ground (arith, length-append before (write_u32 chain_id))

-- registerMonitor does with a message of its type what `register_monitor` does with the address, the
-- selector and the chain that it carries, whatever the buffer held before. (An address of at most 42
-- and a selector of at most 10 characters, without NUL, and a 32-bit chain.)
pub register_monitor-message :
    (address selector old : List ℕ) (chain_id : ℕ) (s : List MonitoredContract)
    → length address ≤ 42
    → length selector ≤ 10
    → All (λ c. c ≢ 0) address
    → All (λ c. c ≢ 0) selector
    → IsU32 chain_id
    → canister_update_register_monitor (register_message address selector chain_id) old s
      ≡ some (register_monitor address selector chain_id s)
unfolding register_message
register_monitor-message address selector old chain_id s ha hs pa ps hc =
    let rest = text_arg selector (write_u32 chain_id) in
    let values = text_arg address rest in
    let n1 = encode_leb128 10 (length address) in
    let n2 = encode_leb128 10 (length selector) in
    let before = start ++ (n1 ++ address) in
    let behind = before ++ (n2 ++ selector) in
    let size1 = length-text_arg address rest in
    let size2 = length-text_arg selector (write_u32 chain_id) in
    let short : length (start ++ values) ≤ 1024 = omega (arith, size1.1, size2.1, four) in
    let same : start ++ values ≡ before ++ rest = unfold text_arg in simp append_assoc in
    let same2 : start ++ values ≡ behind ++ write_u32 chain_id =
      unfold text_arg in simp append_assoc in
    let at1 : 9 + length n1 + length address ≡ length before =
      omega (arith, length-append n1 address) in
    let at2 : length before + length n2 + length selector ≡ length behind =
      omega (arith, length-append (n1 ++ address) (n2 ++ selector), length-append n2 selector) in
    args_lem (length before) (length behind) values address selector old s short
      (omega (arith, size1.0))
      (parse_text-text_arg 42 start address rest old ha (omega arith) pa short
        ∙ ap (λ o. some (address, o)) at1)
      (ap (λ arg. parse_text 10 arg old (length before)) same
        ∙ parse_text-text_arg 10 before selector (write_u32 chain_id) old hs (omega arith) ps
            (omega (arith, short, ap length same))
        ∙ ap (λ o. some (selector, o)) at2)
    ∙ ap (λ c. some (register_monitor address selector c s))
        (ap (λ arg. parse_chain_id arg (length behind)) same2 ∙ chain_lem behind chain_id hc)
  where
    four : length (write_u32 chain_id) ≡ 4
    four = unfold write_u32 in refl
