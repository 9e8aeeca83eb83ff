-- ===== src/EvmLogs/Request.antt =====
-- The JSON request for the logs of a contract, as lib/ic0/canister_entry.c builds it.
use idris2_ouc.Base.{
  ℕ, ◌≡◌, ◌∙◌, refl, ap, List, [], ◌∷◌, ◌++◌, some, none, length, take, arith, ◌==◌, if◌then◌else◌,
}
use idris2_ouc.Word.{IsU64}
use idris2_ouc.EvmLogs.{
  build_eth_get_logs_json, request_text, from_text, address_text, end_text, hex_text, find_after,
  begins, until_quote, parse_hex_uint64,
}
use idris2_ouc.EvmLogs.Hex.{parse-hex_text}
use idris2_ouc.EvmLogs.Fields.{skip_lem, found_lem, misses, misses_plain, until_quote-append}
use idris2_ouc.EvmLogs.Plain.{hex_text-IsPlain, no_quote, no_o}

abbrev pub from_field : List ℕ
from_field = b'f' ∷ b'r' ∷ b'o' ∷ b'm' ∷ b'B' ∷ b'l' ∷ b'o' ∷ b'c' ∷ b'k' ∷ b'"' ∷ b':' ∷ b'"' ∷ []

abbrev pub to_field : List ℕ
to_field = b't' ∷ b'o' ∷ b'B' ∷ b'l' ∷ b'o' ∷ b'c' ∷ b'k' ∷ b'"' ∷ b':' ∷ b'"' ∷ []

-- The text behind the first place of a field's name.
unfoldable pub field_text : List ℕ → List ℕ → List ℕ
field_text field json = elim (find_after 0 field json) [ none ↦ [] | some bs ↦ until_quote bs ]

-- What stands behind the two block numbers.
abbrev at_end : List ℕ → List ℕ
at_end address =
    (if length address == 0 then [] else address_text ++ (take 42 address ++ (b'"' ∷ [])))
    ++ end_text

abbrev at_to : ℕ → List ℕ → List ℕ
at_to to_block address = b'0' ∷ b'x' ∷ hex_text to_block ++ (b'"' ∷ at_end address)

-- What stands between them: the quotation mark of the first and the name of the second.
abbrev between : List ℕ
between = b'"' ∷ b',' ∷ b'"' ∷ []

abbrev at_from : ℕ → ℕ → List ℕ → List ℕ
at_from from_block to_block address =
    b'0' ∷ b'x' ∷ hex_text from_block ++ (between ++ (to_field ++ at_to to_block address))

number_lem :
    (n : ℕ) (field json rest : List ℕ)
    → IsU64 n
    → find_after 0 field json ≡ some (b'0' ∷ b'x' ∷ hex_text n ++ (b'"' ∷ rest))
    → parse_hex_uint64 (field_text field json) ≡ n
unfolding field_text
number_lem n field json rest h e =
    ap parse_hex_uint64 (
      text
      ∙ until_quote-append (b'0' ∷ b'x' ∷ hex_text n) rest
          (ground arith, (ground arith, no_quote (hex_text n) (hex_text-IsPlain n))))
    ∙ parse-hex_text n h
  where
    text : field_text field json ≡ until_quote (b'0' ∷ b'x' ∷ hex_text n ++ (b'"' ∷ rest))
    text = rw (field_text, e) refl

from_lem :
    (from_block to_block : ℕ) (address : List ℕ)
    → IsU64 from_block
    → parse_hex_uint64 (field_text from_field (build_eth_get_logs_json from_block to_block address))
      ≡ from_block
unfolding build_eth_get_logs_json misses begins
from_lem f t address h =
    number_lem f from_field (build_eth_get_logs_json f t address)
      (b',' ∷ b'"' ∷ to_field ++ at_to t address) h
      (skip_lem 0 from_field (request_text ++ (b'"' ∷ [])) (from_field ++ at_from f t address) refl
        ∙ found_lem 0 b'f'
            (b'r' ∷ b'o' ∷ b'm' ∷ b'B' ∷ b'l' ∷ b'o' ∷ b'c' ∷ b'k' ∷ b'"' ∷ b':' ∷ b'"' ∷ [])
            (at_from f t address) (omega arith))

to_lem :
    (from_block to_block : ℕ) (address : List ℕ)
    → IsU64 to_block
    → parse_hex_uint64 (field_text to_field (build_eth_get_logs_json from_block to_block address))
      ≡ to_block
unfolding build_eth_get_logs_json misses begins
to_lem f t address h =
    let rest = to_field ++ at_to t address in
    number_lem t to_field (build_eth_get_logs_json f t address) (at_end address) h (
      skip_lem 0 to_field (request_text ++ from_text) (hex_text f ++ (between ++ rest)) refl
      ∙ skip_lem 0 to_field (hex_text f) (between ++ rest) (
          misses_plain b't' b'o' (b'B' ∷ b'l' ∷ b'o' ∷ b'c' ∷ b'k' ∷ b'"' ∷ b':' ∷ b'"' ∷ [])
            (hex_text f) (b',' ∷ b'"' ∷ rest) (no_o (hex_text f) (hex_text-IsPlain f))
            (ground arith))
      ∙ skip_lem 0 to_field between rest refl
      ∙ found_lem 0 b't' (b'o' ∷ b'B' ∷ b'l' ∷ b'o' ∷ b'c' ∷ b'k' ∷ b'"' ∷ b':' ∷ b'"' ∷ [])
          (at_to t address) (omega arith))

-- The numbers of the first and of the last block, 64-bit numbers, are read back from the request: each
-- one as the hexadecimal text behind the first place of its field's name, whatever the address is.
pub field_text-build :
    (from_block to_block : ℕ) (address : List ℕ)
    → IsU64 from_block
    → IsU64 to_block
    → let json = build_eth_get_logs_json from_block to_block address in
      (parse_hex_uint64 (field_text from_field json) ≡ from_block)
      × (parse_hex_uint64 (field_text to_field json) ≡ to_block)
field_text-build f t address hf ht = (from_lem f t address hf, to_lem f t address ht)
