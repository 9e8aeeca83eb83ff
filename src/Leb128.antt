-- ===== src/Leb128.antt =====
-- LEB128 in lib/ic0/canister_entry.c: the loops that write it (in `reply_candid_text`,
-- `reply_candid_nat` and `encode_leb128_unsigned`, and in threshold_ecdsa.c) and `parse_leb128`.
pub mod RoundTrip
pub mod Signed
mod Tests
use idris2_ouc.Base.{
  ℕ, zero, suc, ◌+◌, ◌*◌, ◌/◌, ◌%◌, ◌^◌, List, [], ◌∷◌, Option, none, some, bit_or, ltb, ◌==◌, ◌&&◌,
  ◌||◌, not, if◌then◌else◌,
}
use idris2_ouc.Word.{u64}

-- `do { byte = value & 0x7F; value >>= 7; if (value != 0) byte |= 0x80; buf[len++] = byte; } while
-- (value != 0)`, with `fuel` rounds at most: 10 for a uint64_t, 5 for a uint32_t.
unfoldable pub encode_leb128 : ℕ → ℕ → List ℕ
encode_leb128 zero value = []
encode_leb128 (suc fuel) value =
    let rest = encode_leb128 fuel (value / 128) in
    if value / 128 == 0 then value % 128 ∷ [] else bit_or (value % 128) 0x80 ∷ rest

-- The loop of `parse_leb128` on the bytes from `offset` to the end of the arguments; the result has
-- the bytes from `*new_offset` on. `none`: a shift by 64 or more, which C leaves undefined.
unfoldable pub parse_leb128_loop : List ℕ → ℕ → ℕ → Option (ℕ × List ℕ)
parse_leb128_loop [] result shift = some (result, [])
parse_leb128_loop (byte ∷ bytes) result shift =
    let result' = bit_or result (u64 (byte % 128 * 2 ^ shift)) in
    let more = parse_leb128_loop bytes result' (shift + 7) in
    if ltb 63 shift then none else if byte / 128 % 2 == 0 then some (result', bytes) else more

unfoldable pub parse_leb128 : List ℕ → Option (ℕ × List ℕ)
parse_leb128 bytes = parse_leb128_loop bytes 0 0

-- `value >>= 7` on an int64_t in two's complement: the sign is shifted in.
unfoldable pub shr7 : ℕ → ℕ
shr7 value =
    if ltb value 9223372036854775808 then value / 128 else value / 128 + 18302628885633695744

-- The loop of `encode_leb128_signed` on an int64_t in two's complement, with `fuel` rounds at most.
unfoldable pub encode_leb128_signed : ℕ → ℕ → List ℕ
encode_leb128_signed zero value = []
encode_leb128_signed (suc fuel) value =
    let byte = value % 128 in
    let value' = shr7 value in
    let rest = encode_leb128_signed fuel value' in
    if value' == 0 && byte / 64 % 2 == 0
      || value' == 18446744073709551615 && not (byte / 64 % 2 == 0)
    then byte ∷ []
    else bit_or byte 0x80 ∷ rest
