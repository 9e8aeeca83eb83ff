-- ===== src/Candid/Reader.antt =====
-- A reader of Candid's blobs and texts, which stand behind their length.
use idris2_ouc.Base.{
  ℕ, ◌<◌, ◌≡◌, ◌∙◌, refl, sym, ap, List, [], ◌++◌, length, take, drop, true, Option, some, none,
  ◌>>=◌, length-append, append-nil, arith, leb, if◌then◌else◌,
}
use idris2_ouc.Base.Split.{take-append, drop-append}
use idris2_ouc.Leb128.{encode_leb128, parse_leb128}
use idris2_ouc.Leb128.RoundTrip.{parse-encode}

-- Bytes behind their number.
unfoldable pub read_bytes : List ℕ → Option (List ℕ × List ℕ)
read_bytes bs = do
  (n, rest) ← parse_leb128 bs
  if leb n (length rest) then some (take n rest, drop n rest) else none

pub read_bytes-encode :
    (xs rest : List ℕ) (n : ℕ)
    → n ≡ length xs
    → n < 65536
    → read_bytes (encode_leb128 10 n ++ (xs ++ rest)) ≡ some (xs, rest)
unfolding read_bytes
read_bytes-encode xs rest n e h =
    rw
      (parse-encode n (xs ++ rest) (omega arith), e, fits, take-append xs rest, drop-append xs rest)
      refl
  where
    fits : leb (length xs) (length (xs ++ rest)) ≡ true
    fits = ground (arith, length-append xs rest)

pub read_bytes-encode_end :
    (xs : List ℕ) (n : ℕ)
    → n ≡ length xs
    → n < 65536
    → read_bytes (encode_leb128 10 n ++ xs) ≡ some (xs, [])
read_bytes-encode_end xs n e h =
    ap (λ r. read_bytes (encode_leb128 10 n ++ r)) (sym (append-nil xs))
    ∙ read_bytes-encode xs [] n e h
