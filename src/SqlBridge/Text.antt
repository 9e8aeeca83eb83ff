-- ===== src/SqlBridge/Text.antt =====
-- The parts of the `sql_ffi_*` functions that do more than convert numbers: the string buffer, the
-- temporary end of a text, and the access to one byte of a column.
use idris2_ouc.Base.{
  ℕ, zero, suc, ◌+◌, ◌-◌, ◌≤◌, ◌<◌, ◌≡◌, refl, ap, List, [], ◌∷◌, ◌++◌, arith, ltb, ◌==◌,
  if◌then◌else◌, length, take, set, get_or, length-append, append_assoc, append-nil, sym, All,
}
use idris2_ouc.Word.{u8, IsByte}
use idris2_ouc.SqlBridge.Api.{SqliteApi}
use idris2_ouc.SqlBridge.{Bridge, sql_exec, sql_prepare, sql_column_text, sql_column_bytes}

abbrev pub string_buffer_size : ℕ
string_buffer_size = 65536

-- The bytes of `g_str_buffer` before its end, which `g_str_len` counts.
abbrev pub StrBuffer : Type 0
StrBuffer = List ℕ

unfoldable pub sql_ffi_str_reset : StrBuffer → StrBuffer
sql_ffi_str_reset b = []

unfoldable pub sql_ffi_str_push : ℕ → StrBuffer → StrBuffer
sql_ffi_str_push byte b = if ltb (length b) (string_buffer_size - 1) then b ++ (u8 byte ∷ []) else b

-- A C string: the bytes before the first NUL.
unfoldable pub c_string : List ℕ → List ℕ
c_string [] = []
c_string (x ∷ xs) = if x == 0 then [] else x ∷ c_string xs

module _ (api : SqliteApi) where
  -- `sql_ffi_exec` and `sql_ffi_prepare` put a NUL behind the text, call, and put the old byte back.
  -- The result holds the code, the caller's memory from `sql_ptr` on, and the bridge.
  unfoldable pub with_terminator :
      (List ℕ → Bridge api → ℕ × Bridge api) → List ℕ → ℕ → Bridge api → ℕ × List ℕ × Bridge api
  with_terminator call memory sql_len b =
      let saved = get_or memory sql_len 0 in
      let ended = set memory sql_len 0 in
      let (rc, b') = call (c_string ended) b in (rc, set ended sql_len saved, b')

  unfoldable pub sql_ffi_exec : List ℕ → ℕ → Bridge api → ℕ × List ℕ × Bridge api
  sql_ffi_exec = with_terminator (sql_exec api)

  unfoldable pub sql_ffi_prepare : List ℕ → ℕ → Bridge api → ℕ × List ℕ × Bridge api
  sql_ffi_prepare = with_terminator (sql_prepare api)

  unfoldable pub sql_ffi_column_text_byte : ℕ → ℕ → Bridge api → ℕ
  sql_ffi_column_text_byte idx byte_idx b =
      if ltb byte_idx (sql_column_bytes api idx b)
      then get_or (sql_column_text api idx b) byte_idx 0
      else 0

set-set_back : (m : List ℕ) (i : ℕ) → set (set m i 0) i (get_or m i 0) ≡ m
set-set_back [] i = refl
set-set_back (x ∷ m) zero = refl
set-set_back (x ∷ m) (suc i) = ap (λ r. x ∷ r) (set-set_back m i)

c_string-set : (m : List ℕ) (n : ℕ) → n < length m → c_string (set m n 0) ≡ c_string (take n m)
unfolding c_string
c_string-set [] n h = absurd (omega arith)
c_string-set (x ∷ m) zero h = refl
c_string-set (x ∷ m) (suc n) h = ground (arith, c_string-set m n (omega arith))

-- `sql_ffi_exec` executes the C string in the first `sql_len` bytes, and gives the caller's memory
-- back as it was, if the byte behind the text belongs to it.
pub sql_ffi_exec-restores :
    (api : SqliteApi) (memory : List ℕ) (sql_len : ℕ) (b : Bridge api)
    → sql_len < length memory
    → sql_ffi_exec api memory sql_len b ≡ (
      (sql_exec api (c_string (take sql_len memory)) b).0,
      memory,
      (sql_exec api (c_string (take sql_len memory)) b).1,
    )
unfolding sql_ffi_exec with_terminator
sql_ffi_exec-restores api memory n b h = rw (c_string-set memory n h, set-set_back memory n)

-- Pushing bytes one by one, as the FFI does.
unfoldable pub push_all : List ℕ → StrBuffer → StrBuffer
push_all [] b = b
push_all (x ∷ xs) b = push_all xs (sql_ffi_str_push x b)

full-stays : (xs b : List ℕ) → 65535 ≤ length b → push_all xs b ≡ b
unfolding push_all sql_ffi_str_push
full-stays [] b h = refl
full-stays (x ∷ xs) b h = ground (arith, full-stays xs b h)

push_all-append :
    (xs b : List ℕ) (k : ℕ) → All IsByte xs → length b + k ≡ 65535 → push_all xs b ≡ b ++ take k xs
unfolding push_all sql_ffi_str_push
push_all-append [] b zero h e = sym (append-nil b)
push_all-append [] b (suc k) h e = sym (append-nil b)
push_all-append (x ∷ xs) b zero (hx, h) e = rw (full-stays (x ∷ xs) b (omega arith), append-nil)
push_all-append (x ∷ xs) b (suc k) (hx, h) e = ground (
  arith,
  push_all-append xs (b ++ (x ∷ [])) k h (omega (arith, length-append b (x ∷ []))),
  append_assoc b (x ∷ []) (take k xs),
)

-- The buffer keeps the first 65535 bytes that are pushed after a reset, and drops the rest.
pub push_all-reset :
    (xs b : List ℕ) → All IsByte xs → push_all xs (sql_ffi_str_reset b) ≡ take 65535 xs
unfolding sql_ffi_str_reset
push_all-reset xs b h = push_all-append xs [] 65535 h refl
