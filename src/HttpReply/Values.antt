-- ===== src/HttpReply/Values.antt =====
-- Reading numbers at an offset, as lib/ic0/canister_entry.c does in replies to HTTP outcalls.
use idris2_ouc.Base.{
  ℕ, zero, suc, ◌+◌, ◌-◌, ◌*◌, ◌%◌, ◌^◌, ◌≤◌, ◌<◌, ◌≡◌, ◌∙◌, refl, sym, ap, List, [], ◌∷◌, ◌++◌,
  some, bit_or, length, drop, arith, length-append,
}
use idris2_ouc.Base.Split.{drop-append}
use idris2_ouc.Word.{u64, IsU64}
use idris2_ouc.Leb128.{encode_leb128, parse_leb128, parse_leb128_loop}
use idris2_ouc.Leb128.RoundTrip.{parse-encode}
use idris2_ouc.HttpReply.{leb128_at_loop, parse_leb128_at}

-- From the offset on, the buffer holds `bs` and nothing else.
pub record IsAt (buf : List ℕ) (offset : ℕ) (bs : List ℕ) : Type 0 where
  pub rest : drop offset buf ≡ bs
  pub end : offset + length bs ≡ length buf
  pub small : length buf < 2147483648

drop_none : (n : ℕ) → drop {A = ℕ} n [] ≡ []
drop_none zero = refl
drop_none (suc n) = refl

drop-drop : (n k : ℕ) (xs : List ℕ) → drop (n + k) xs ≡ drop k (drop n xs)
drop-drop zero k xs = ap (λ j. drop j xs) {x = 0 + k} {y = k} (omega arith)
drop-drop (suc n) k [] =
    ap (λ j. drop j []) {x = suc n + k} {y = suc (n + k)} (omega arith) ∙ sym (drop_none k)
drop-drop (suc n) k (x ∷ xs) =
    ap (λ j. drop j (x ∷ xs)) {x = suc n + k} {y = suc (n + k)} (omega arith) ∙ drop-drop n k xs

pub IsAt-append :
    (buf : List ℕ) (offset : ℕ) (xs ys : List ℕ)
    → IsAt buf offset (xs ++ ys)
    → IsAt buf (offset + length xs) ys
IsAt-append buf offset xs ys h = record {
  rest = drop-drop offset (length xs) buf ∙ ap (drop (length xs)) h.rest ∙ drop-append xs ys;
  end = omega (arith, h.end, length-append xs ys);
  small = h.small;
}

loop_lem :
    (bs post : List ℕ) (result shift offset v : ℕ)
    → parse_leb128_loop bs result shift ≡ some (v, post)
    → (length post ≤ length bs)
      × (leb128_at_loop bs result shift offset ≡ some (v, offset + (length bs - length post)))
unfolding parse_leb128_loop leb128_at_loop
loop_lem [] post result shift offset v e = ground arith
loop_lem (b ∷ bs) post result shift offset v e =
    ground (
      arith,
      loop_lem bs post (bit_or result (u64 (b % 128 * 2 ^ shift))) (shift + 7) (offset + 1) v,
    )

-- A number that stands at the offset is read, and the offset goes behind it.
pub parse_at-encode :
    (buf : List ℕ) (offset v : ℕ) (post : List ℕ)
    → IsAt buf offset (encode_leb128 10 v ++ post)
    → IsU64 v
    → parse_leb128_at buf offset ≡ some (v, offset + length (encode_leb128 10 v))
unfolding parse_leb128_at
parse_at-encode buf offset v post h fits =
    let (shorter, e) =
      loop_lem (encode_leb128 10 v ++ post) post 0 0 offset v
        (unfold parse_leb128 in parse-encode v post fits) in
    ground (arith, h.rest, h.end, h.small, e, length-append (encode_leb128 10 v) post)

pub drop_behind : (n : ℕ) (xs : List ℕ) → length xs ≤ n → drop n xs ≡ []
drop_behind n [] h = drop_none n
drop_behind zero (x ∷ xs) h = absurd (omega arith)
drop_behind (suc n) (x ∷ xs) h = drop_behind n xs (omega arith)
