-- ===== src/Candid.antt =====
-- Candid arguments and replies in lib/ic0/canister_entry.c: a message is its list of bytes, and a
-- reply is what `ic0_msg_reply_data_append` got before `ic0_msg_reply`.
-- `none` stands for a shift that C leaves undefined (see `Leb128`).
pub mod RoundTrip
pub mod Reader
use idris2_ouc.Base.{
  ℕ, zero, suc, ◌+◌, ◌-◌, ◌<◌, List, [], ◌∷◌, ◌++◌, Option, none, some, ◌>>=◌, Bool, true, false,
  ◌&&◌, not, ltb, leb, ◌==◌, if◌then◌else◌, length, take, drop, set, get_or,
}
use idris2_ouc.Leb128.{encode_leb128, parse_leb128}

-- "DIDL".
abbrev pub didl : List ℕ
didl = 0x44 ∷ 0x49 ∷ 0x44 ∷ 0x4C ∷ []

-- The bytes of `arg_buf` up to `arg_buf_size`: the message, cut at 1024 bytes.
unfoldable pub load_candid_args : List ℕ → List ℕ
load_candid_args msg = if ltb 1024 (length msg) then take 1024 msg else msg

-- `arg_buf_size >= 7` and the four tests on its first bytes.
unfoldable pub has_didl : List ℕ → Bool
has_didl arg =
    not (ltb (length arg) 7)
    && (get_or arg 0 0 == b'D'
        && (get_or arg 1 0 == b'I' && (get_or arg 2 0 == b'D' && get_or arg 3 0 == b'L')))

-- `for (i = 0; i < type_count; i++)` over the type table: one number is taken for each entry.
unfoldable pub skip_types : ℕ → List ℕ → Option (List ℕ)
skip_types zero bytes = some bytes
skip_types (suc n) bytes = do (v, rest) ← parse_leb128 bytes; skip_types n rest

-- The part that both parsers share: type table, argument count and type code. The inner `none` is
-- an argument count below 1.
unfoldable pub skip_header : List ℕ → Option (Option (List ℕ))
skip_header arg = do
  (type_count, r1) ← parse_leb128 (drop 4 arg)
  r2 ← skip_types type_count r1
  (arg_count, r3) ← parse_leb128 r2
  if ltb arg_count 1 then some none else some (some (drop 1 r3))

unfoldable pub parse_candid_nat_arg : List ℕ → Option ℕ
parse_candid_nat_arg msg =
    let arg = load_candid_args msg in
    if has_didl arg
    then (do
      found ← skip_header arg
      elim found [ none ↦ some 0 | some r ↦ do (value, r') ← parse_leb128 r; some value ])
    else some 0

-- `for (i = 0; i < text_len && offset < arg_buf_size; i++) text_arg_buf[i] = arg_buf[offset++]`.
unfoldable pub copy_text : ℕ → List ℕ → List ℕ → List ℕ
copy_text zero bytes buf = buf
copy_text (suc n) [] buf = buf
copy_text (suc n) (b ∷ bytes) [] = []
copy_text (suc n) (b ∷ bytes) (c ∷ buf) = b ∷ copy_text n bytes buf

-- `text_arg_len` and `text_arg_buf`, whose 512 bytes stay from call to call.
pub record TextArg : Type 0 where
  pub len : ℕ
  pub buf : List ℕ

-- The result is `text_arg_len`.
unfoldable pub parse_candid_text_arg : List ℕ → TextArg → Option TextArg
parse_candid_text_arg msg t =
    let arg = load_candid_args msg in
    if has_didl arg
    then (do
      found ← skip_header arg
      elim found [
        | none ↦ some (record t { len = 0 })
        | some r ↦ do
          (announced, r') ← parse_leb128 r
          let text_len = if leb 512 announced then 511 else announced
          some (record { len = text_len; buf = set (copy_text text_len r' t.buf) text_len 0 })
      ])
    else some (record t { len = 0 })

-- `reply_candid_text`, for a text with no NUL.
unfoldable pub reply_candid_text : List ℕ → List ℕ
reply_candid_text text =
    (didl ++ (0x00 ∷ 0x01 ∷ 0x71 ∷ [])) ++ (encode_leb128 5 (length text) ++ text)

unfoldable pub reply_candid_nat : ℕ → List ℕ
reply_candid_nat value = (didl ++ (0x00 ∷ 0x01 ∷ 0x7D ∷ [])) ++ encode_leb128 10 value

unfoldable pub reply_candid_null : List ℕ
reply_candid_null = didl ++ (0x00 ∷ 0x01 ∷ 0x7F ∷ [])

-- `encode_candid_text_value` and `encode_candid_blob_value`: length and bytes.
unfoldable pub encode_candid_text_value : List ℕ → List ℕ
encode_candid_text_value text = encode_leb128 5 (length text) ++ text

unfoldable pub encode_candid_blob_value : List ℕ → List ℕ
encode_candid_blob_value bytes = encode_leb128 5 (length bytes) ++ bytes
