-- ===== src/FfiBridge/Buffers.antt =====
-- Buffers: what Idris2 writes is what C sends, and what C sets is what Idris2 reads.
use idris2_ouc.Base.{
  ℕ, zero, suc, ◌+◌, ◌≤◌, ◌<◌, ◌≡◌, ◌∙◌, sym, refl, ap, List, [], ◌∷◌, ◌++◌, some, ltb, leb,
  if◌then◌else◌, length, take, drop, set, get_or, arith, All, length-set, min, append_assoc,
  append-nil,
}
use idris2_ouc.Word.{IsByte}
use idris2_ouc.FfiBridge.{
  Buffer, ic_candid_write_byte, ic_candid_set_len, candid_reply, ic_json_c_set, ic_json_get_len,
  ic_json_get_byte,
}

-- Idris2 writes a message byte by byte, from index `i` on.
unfoldable pub write_message : List ℕ → ℕ → Buffer → Buffer
write_message [] i b = b
write_message (x ∷ xs) i b = write_message xs (i + 1) (ic_candid_write_byte i x b)

take-set :
    (xs : List ℕ) (i x : ℕ) → i < length xs → take (suc i) (set xs i x) ≡ take i xs ++ (x ∷ [])
take-set [] i x h = absurd (omega arith)
take-set (y ∷ xs) zero x h = refl
take-set (y ∷ xs) (suc i) x h = ap (λ r. y ∷ r) (take-set xs i x (omega arith))

-- The bytes from index 0 on, as long as the buffer has room for them.
write_message-take :
    (xs : List ℕ) (i : ℕ) (b : Buffer)
    → All IsByte xs
    → length b.buf ≡ 4096
    → i + length xs ≤ 4096
    → (take (i + length xs) (write_message xs i b).buf ≡ take i b.buf ++ xs)
      × (length (write_message xs i b).buf ≡ 4096)
unfolding write_message ic_candid_write_byte
write_message-take [] i b h e fits =
    (ap (λ n. take n b.buf) {x = i + 0} {y = i} (omega arith) ∙ sym (append-nil (take i b.buf)), e)
write_message-take (x ∷ xs) i b (hx, h) e fits = ground (
  arith,
  write_message-take xs (i + 1) (record b { buf = set b.buf i x }) h
      (omega (arith, e, length-set b.buf i x)) (omega arith),
  take-set b.buf i x (omega arith),
  append_assoc (take i b.buf) (x ∷ []) xs,
)

-- A message of at most 4096 bytes that Idris2 writes byte by byte, and whose length it sets then, is
-- what C sends, whatever the buffer held before.
pub candid_reply-write_message :
    (xs : List ℕ) (b : Buffer)
    → All IsByte xs
    → length b.buf ≡ 4096
    → length xs ≤ 4096
    → candid_reply (ic_candid_set_len (length xs) (write_message xs 0 b)) ≡ xs
unfolding candid_reply ic_candid_set_len
candid_reply-write_message xs b h e fits =
    ground (arith, write_message-take xs 0 b h e (omega arith))

get_or-past : (xs : List ℕ) (i n v : ℕ) → i < n → get_or (set xs n v) i 0 ≡ get_or xs i 0
get_or-past [] i n v h = refl
get_or-past (x ∷ xs) i zero v h = absurd (omega arith)
get_or-past (x ∷ xs) zero (suc n) v h = refl
get_or-past (x ∷ xs) (suc i) (suc n) v h = get_or-past xs i n v (omega arith)

get_or-front :
    (n i : ℕ) (json rest : List ℕ)
    → i < n
    → n ≤ length json
    → get_or (take n json ++ rest) i 0 ≡ get_or json i 0
get_or-front zero i json rest h k = absurd (omega arith)
get_or-front (suc n) i [] rest h k = absurd (omega arith)
get_or-front (suc n) zero (c ∷ json) rest h k = refl
get_or-front (suc n) (suc i) (c ∷ json) rest h k =
    get_or-front n i json rest (omega arith) (omega arith)

-- The cut text, inside it and behind its end.
get_or-take :
    (m i : ℕ) (json : List ℕ)
    → get_or (take m json) i 0 ≡ (if ltb i (min m (length json)) then get_or json i 0 else 0)
get_or-take zero i json = ground arith
get_or-take (suc m) i [] = ground arith
get_or-take (suc m) zero (c ∷ json) = ground arith
get_or-take (suc m) (suc i) (c ∷ json) = ground (arith, get_or-take m i json)

-- A byte of the buffer, which holds `n` characters of the text and the NUL.
read_cut :
    (n i : ℕ) (json rest : List ℕ)
    → n ≤ length json
    → (if ltb i n then get_or (set (take n json ++ rest) n 0) i 0 else 0)
      ≡ (if ltb i n then get_or json i 0 else 0)
read_cut n i json rest h =
    ground (arith, get_or-past (take n json ++ rest) i n 0, get_or-front n i json rest)

cut_length : (l : ℕ) → (if leb 4096 l then 4095 else l) ≡ min 4095 l
cut_length l = ground arith

-- The length that C stores is that of the text, at most 4095, and what C set with `ic_json_c_set` is
-- what Idris2 reads: the characters of the text up to there, and 0 behind.
pub json_get-json_set :
    (json : List ℕ) (i : ℕ) (b : Buffer)
    → (ic_json_get_len (ic_json_c_set (some json) b) ≡ min 4095 (length json))
      × (ic_json_get_byte i (ic_json_c_set (some json) b) ≡ get_or (take 4095 json) i 0)
unfolding ic_json_get_len ic_json_c_set ic_json_get_byte
json_get-json_set json i b =
    let n : ℕ = if leb 4096 (length json) then 4095 else length json in
    let e : n ≡ min 4095 (length json) = cut_length (length json) in
    (
      e,
      read_cut n i json (drop n b.buf) (omega (arith, e))
          ∙ ap (λ (k : ℕ). if ltb i k then get_or json i 0 else 0) e
          ∙ sym (get_or-take 4095 i json),
    )
