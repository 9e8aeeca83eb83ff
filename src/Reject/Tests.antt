-- ===== src/Reject/Tests.antt =====
-- A concrete rejection.
use idris2_ouc.Base.{ℕ, ◌+◌, ◌≡◌, List, [], ◌∷◌, some, arith, length, drop}
use idris2_ouc.Reject.{
  http_start, evm_start, dict_start, http_reject_text, evm_reject_text, dict_reject_text,
}
use idris2_ouc.Reject.Escape.{read_string, printable}
use idris2_ouc.Reject.Fits.{read_string-reject}

-- A quotation mark, a letter and a line break.
abbrev message : List ℕ
message = b'"' ∷ b'a' ∷ 10 ∷ []

read_string-reject_example :
    (read_string (drop (length (http_start 5 message) + 8) (http_reject_text 5 message))
      ≡ some (b'"' ∷ b'a' ∷ [], b'}' ∷ []))
    × (read_string (drop (length (evm_start 5) + 8) (evm_reject_text 5 message))
        ≡ some (b'"' ∷ b'a' ∷ [], b'}' ∷ []))
    × (read_string (drop (length (dict_start 5) + 8) (dict_reject_text 5 message))
        ≡ some (b'"' ∷ b'a' ∷ [], b'}' ∷ []))
unfolding printable
read_string-reject_example = read_string-reject 5 message (omega arith) (omega arith)
