-- ===== src/FfiBridge.antt =====
-- lib/ic0/ic_ffi_bridge.c: arguments, buffers and words of stable memory that C and Idris2 share, and
-- the parts of lib/ic0/ic0_stubs.c of the same shape (`ouc_*`).
-- An `int64_t` is its 64 bits and an `int32_t` its 32 bits, read as a natural number: a negative index
-- is at least 2^63, so `index >= 0 && index < N` is one comparison. Debug output is left out.
pub mod Args
pub mod Buffers
pub mod Words
use idris2_ouc.Base.{
  ℕ, zero, suc, ◌+◌, ◌-◌, ◌*◌, ◌/◌, ◌<◌, List, [], ◌∷◌, ◌++◌, Bool, Option, none, some, ◌>>=◌, ltb,
  leb, if◌then◌else◌, length, take, drop, replicate, set, get_or,
}
use idris2_ouc.Word.{u8, u32}
use idris2_ouc.Word.Bytes.{write_u32, read_u32, write_u64, read_u64}
use idris2_ouc.Stable.{StableApi}

abbrev pub ic_ffi_max_args : ℕ
ic_ffi_max_args = 8

-- `ic_ffi_args` and `ic_ffi_result`.
pub record Channel : Type 0 where
  pub args : List ℕ
  pub result : ℕ

unfoldable pub ic_ffi_get_arg : ℕ → Channel → ℕ
ic_ffi_get_arg index c = if ltb index ic_ffi_max_args then get_or c.args index 0 else 0

unfoldable pub ic_ffi_set_result : ℕ → Channel → Channel
ic_ffi_set_result value c = record c { result = value }

unfoldable pub ic_ffi_c_set_arg : ℕ → ℕ → Channel → Channel
ic_ffi_c_set_arg index value c =
    if ltb index ic_ffi_max_args then record c { args = set c.args index value } else c

unfoldable pub ic_ffi_c_get_result : Channel → ℕ
ic_ffi_c_get_result c = c.result

unfoldable pub ic_ffi_reset : Channel → Channel
ic_ffi_reset c = record { args = replicate ic_ffi_max_args 0; result = 0 }

-- The sign extension of 32 bits to 64.
unfoldable pub sign_extend : ℕ → ℕ
sign_extend v = if ltb v 2147483648 then v else v + 18446744069414584320

-- The channel of lib/ic0/ic0_stubs.c holds 32-bit words.
unfoldable pub ouc_set_result_i32 : ℕ → Channel → Channel
ouc_set_result_i32 value c = record c { result = u32 value }

unfoldable pub ouc_get_arg_i32 : ℕ → Channel → ℕ
ouc_get_arg_i32 index c = if ltb index 8 then sign_extend (get_or c.args index 0) else 0

unfoldable pub ouc_c_set_arg_i32 : ℕ → ℕ → Channel → Channel
ouc_c_set_arg_i32 index value c =
    if ltb index 8 then record c { args = set c.args index value } else c

unfoldable pub ouc_c_get_result_i32 : Channel → ℕ
ouc_c_get_result_i32 c = c.result

unfoldable pub ouc_reset_ffi : Channel → Channel
ouc_reset_ffi c = record { args = replicate 8 0; result = 0 }

-- A buffer of fixed size and the length that is in use.
pub record Buffer : Type 0 where
  pub buf : List ℕ
  pub len : ℕ

abbrev pub ic_candid_buf_size : ℕ
ic_candid_buf_size = 4096

unfoldable pub ic_candid_write_byte : ℕ → ℕ → Buffer → Buffer
ic_candid_write_byte index byte b =
    if ltb index ic_candid_buf_size then record b { buf = set b.buf index (u8 byte) } else b

unfoldable pub ic_candid_set_len : ℕ → Buffer → Buffer
ic_candid_set_len len b = if leb len ic_candid_buf_size then record b { len = len } else b

unfoldable pub ic_candid_clear : Buffer → Buffer
ic_candid_clear b = record { buf = replicate ic_candid_buf_size 0; len = 0 }

-- What C sends: `ic_candid_c_get_len` bytes from `ic_candid_c_get_buf` on.
unfoldable pub candid_reply : Buffer → List ℕ
candid_reply b = take b.len b.buf

-- The Candid buffer of lib/ic0/ic0_stubs.c; its `clear` keeps the bytes.
unfoldable pub ouc_candid_write_byte : ℕ → ℕ → Buffer → Buffer
ouc_candid_write_byte index byte b =
    if ltb index 4096 then record b { buf = set b.buf index (u8 byte) } else b

unfoldable pub ouc_candid_set_len : ℕ → Buffer → Buffer
ouc_candid_set_len len b = if leb len 4096 then record b { len = len } else b

unfoldable pub ouc_candid_clear : Buffer → Buffer
ouc_candid_clear b = record b { len = 0 }

abbrev pub ic_json_buf_size : ℕ
ic_json_buf_size = 4096

-- `none` is a null pointer; a text is its characters before the NUL.
unfoldable pub ic_json_c_set : Option (List ℕ) → Buffer → Buffer
ic_json_c_set none b = record { buf = set b.buf 0 0; len = 0 }
ic_json_c_set (some json) b =
    let n = if leb ic_json_buf_size (length json) then ic_json_buf_size - 1 else length json in
    record { buf = set (take n json ++ drop n b.buf) n 0; len = n }

unfoldable pub ic_json_get_len : Buffer → ℕ
ic_json_get_len b = b.len

unfoldable pub ic_json_get_byte : ℕ → Buffer → ℕ
ic_json_get_byte index b = if ltb index b.len then get_or b.buf index 0 else 0

-- `while (json[len] && len < OUC_JSON_BUF_SIZE - 1)` at `i`, with the rest of the text.
unfoldable pub set_json_loop : List ℕ → ℕ → List ℕ → Buffer
set_json_loop [] i buf = record { buf = set buf i 0; len = i }
set_json_loop (c ∷ json) i buf =
    let more = set_json_loop json (i + 1) (set buf i c) in
    if ltb i 1023 then more else record { buf = set buf i 0; len = i }

unfoldable pub ouc_c_set_json : List ℕ → Buffer → Buffer
ouc_c_set_json json b = set_json_loop json 0 b.buf

unfoldable pub ouc_json_get_byte : ℕ → Buffer → ℕ
ouc_json_get_byte index b = if ltb index b.len then get_or b.buf index 0 else 0

abbrev pub ic_str_buf_size : ℕ
ic_str_buf_size = 1024

unfoldable pub ic_str_write_byte : ℕ → ℕ → Buffer → Buffer
ic_str_write_byte index byte b =
    if ltb index (ic_str_buf_size - 1) then record b { buf = set b.buf index (u8 byte) } else b

unfoldable pub ic_str_set_len : ℕ → Buffer → Buffer
ic_str_set_len len b =
    if ltb len ic_str_buf_size then record { buf = set b.buf len 0; len = len } else b

-- The pages for `size` bytes at the `int32_t` offset `o`, rounded towards 0 where the sum is negative;
-- `none` where it overflows, which C leaves undefined.
unfoldable pub needed_pages : ℕ → ℕ → Option ℕ
needed_pages o size =
    if ltb o 2147483648
    then (if ltb (o + size + 65535) 2147483648 then some ((o + size + 65535) / 65536) else none)
    else some ((o + size + 65535 - 4294967296) / 65536)

module _ (api : StableApi) where
  open api use {Mem, pages, grow, read, write}

  -- `if (needed_pages > current_pages) ic0_stable_grow(needed_pages - current_pages)`.
  unfoldable pub grow_for : ℕ → ℕ → Mem → Option Mem
  grow_for o size m = do
    needed ← needed_pages o size
    some (if ltb (pages m) needed then grow (needed - pages m) m else m)

  unfoldable pub ic_stable_write_i64 : ℕ → ℕ → Mem → Option Mem
  ic_stable_write_i64 offset value m = do
    m' ← grow_for (u32 offset) 8 m
    write (u32 offset) (write_u64 value) m'

  unfoldable pub ic_stable_read_i64 : ℕ → Mem → Option ℕ
  ic_stable_read_i64 offset m = do bs ← read (u32 offset) 8 m; some (read_u64 bs)

  unfoldable pub ic_stable_write_i32 : ℕ → ℕ → Mem → Option Mem
  ic_stable_write_i32 offset value m = do
    m' ← grow_for (u32 offset) 4 m
    write (u32 offset) (write_u32 (u32 value)) m'

  unfoldable pub ic_stable_read_i32 : ℕ → Mem → Option ℕ
  ic_stable_read_i32 offset m = do bs ← read (u32 offset) 4 m; some (sign_extend (read_u32 bs))
