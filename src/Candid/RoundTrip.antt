-- ===== src/Candid/RoundTrip.antt =====
-- The parsers read the replies' format.
use idris2_ouc.Base.{
  ℕ, zero, suc, ◌+◌, ◌≤◌, ◌<◌, ◌≡◌, ◌∙◌, refl, ap, List, [], ◌∷◌, ◌++◌, some, true, arith, length,
  drop, set, length-append, append-nil, le→ltb,
}
use idris2_ouc.Word.{IsU64}
use idris2_ouc.Leb128.{encode_leb128, parse_leb128, parse_leb128_loop}
use idris2_ouc.Leb128.RoundTrip.{parse-encode, parse-encode_u32, length-encode_leb128}
use idris2_ouc.Candid.{
  load_candid_args, has_didl, skip_types, skip_header, parse_candid_nat_arg, copy_text, TextArg,
  parse_candid_text_arg, reply_candid_text, reply_candid_nat,
}

-- A message `DIDL 00 01 code` with some bytes behind it.
abbrev one_arg : ℕ → List ℕ → List ℕ
one_arg code body = 0x44 ∷ 0x49 ∷ 0x44 ∷ 0x4C ∷ 0x00 ∷ 0x01 ∷ code ∷ body

pub load_short : (m : List ℕ) → length m ≤ 1024 → load_candid_args m ≡ m
unfolding load_candid_args
load_short m h = rw (le→ltb 1024 (length m) h)

didl-one_arg : (code : ℕ) (body : List ℕ) → has_didl (one_arg code body) ≡ true
unfolding has_didl
didl-one_arg code body = ground arith

header-one_arg : (code : ℕ) (body : List ℕ) → skip_header (one_arg code body) ≡ some (some body)
unfolding skip_header skip_types parse_leb128 parse_leb128_loop
header-one_arg code body = refl

-- `parse_candid_nat_arg` reads the 64-bit number that `reply_candid_nat` wrote.
pub nat_arg-reply_nat : (v : ℕ) → IsU64 v → parse_candid_nat_arg (reply_candid_nat v) ≡ some v
unfolding parse_candid_nat_arg reply_candid_nat
nat_arg-reply_nat v h = ground (
  arith,
  load_short (one_arg 0x7D (encode_leb128 10 v)) (omega (arith, length-encode_leb128 10 v)),
  didl-one_arg 0x7D (encode_leb128 10 v),
  header-one_arg 0x7D (encode_leb128 10 v),
  ap parse_leb128 (append-nil (encode_leb128 10 v)),
  parse-encode v [] h,
)

-- What the copy leaves: the bytes there are, at most `n`, over the old content.
copy_text-append :
    (n : ℕ) (bytes buf : List ℕ)
    → length bytes ≤ n
    → length bytes ≤ length buf
    → copy_text n bytes buf ≡ bytes ++ drop (length bytes) buf
unfolding copy_text
copy_text-append zero [] buf h k = refl
copy_text-append zero (b ∷ bytes) buf h k = absurd (omega arith)
copy_text-append (suc n) [] buf h k = refl
copy_text-append (suc n) (b ∷ bytes) [] h k = absurd (omega arith)
copy_text-append (suc n) (b ∷ bytes) (c ∷ buf) h k =
    ap (λ r. b ∷ r) (copy_text-append n bytes buf (omega arith) (omega arith))

-- A message of at most 1024 bytes that announces a text of `n` bytes, at most 511, and carries only
-- the bytes `text`, at most `n`, makes `text_arg_len` equal to `n`: between `text` and the NUL, the
-- buffer keeps what an earlier call left there.
pub text_arg-announced :
    (n : ℕ) (text : List ℕ) (t : TextArg)
    → n ≤ 511
    → length text ≤ n
    → length t.buf ≡ 512
    → 12 + length text ≤ 1024
    → parse_candid_text_arg (one_arg 0x71 (encode_leb128 5 n ++ text)) t
      ≡ some (record { len = n; buf = set (text ++ drop (length text) t.buf) n 0 })
unfolding parse_candid_text_arg
text_arg-announced n text t hn ht hb hm = ground (
  arith,
  load_short (one_arg 0x71 (encode_leb128 5 n ++ text))
      (omega (arith, length-encode_leb128 5 n, length-append (encode_leb128 5 n) text)),
  didl-one_arg 0x71 (encode_leb128 5 n ++ text),
  header-one_arg 0x71 (encode_leb128 5 n ++ text),
  parse-encode_u32 n text (omega arith),
  copy_text-append n text t.buf ht (omega arith),
)

set-append :
    (text rest : List ℕ) (x : ℕ) → set (text ++ (x ∷ rest)) (length text) 0 ≡ text ++ (0 ∷ rest)
set-append [] rest x = refl
set-append (y ∷ text) rest x = ap (λ r. y ∷ r) (set-append text rest x)

drop-cons : (n : ℕ) (xs : List ℕ) → n < length xs → (x : ℕ) × (drop n xs ≡ x ∷ drop (suc n) xs)
drop-cons n [] h = absurd (omega arith)
drop-cons zero (x ∷ xs) h = (x, refl)
drop-cons (suc n) (x ∷ xs) h = drop-cons n xs (omega arith)

-- `parse_candid_text_arg` reads a text of at most 511 bytes that `reply_candid_text` wrote: its length
-- is `text_arg_len`, and its bytes and a NUL begin `text_arg_buf`.
pub text_arg-reply_text :
    (text : List ℕ) (t : TextArg)
    → length text ≤ 511
    → length t.buf ≡ 512
    → parse_candid_text_arg (reply_candid_text text) t
      ≡ some (record { len = length text; buf = text ++ (0 ∷ drop (suc (length text)) t.buf) })
unfolding reply_candid_text
text_arg-reply_text text t h hb =
    let (x, e) = drop-cons (length text) t.buf (omega arith) in
    text_arg-announced (length text) text t h (omega arith) hb (omega arith)
    ∙ ap (λ b. some (record { len = length text; buf = b }))
        (ap (λ r. set (text ++ r) (length text) 0) e
          ∙ set-append text (drop (suc (length text)) t.buf) x)
