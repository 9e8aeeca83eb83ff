-- ===== src/Word.antt =====
-- Machine words of the C code as native numbers. A uintN_t is a number below 2 ^ N, and a
-- conversion to it is the remainder.
pub mod Bits
pub mod Bytes
use idris2_ouc.Base.{ℕ, ◌*◌, ◌/◌, ◌%◌, ◌^◌, ◌<◌}

abbrev pub IsByte : ℕ → Type 0
IsByte b = b < 256

abbrev pub IsU32 : ℕ → Type 0
IsU32 v = v < 2 ^ 32

abbrev pub IsU64 : ℕ → Type 0
IsU64 v = v < 2 ^ 64

-- The conversions `(uint8_t)`, `(uint16_t)`, `(uint32_t)` and `(uint64_t)`.
abbrev pub u8 : ℕ → ℕ
u8 v = v % 256

abbrev pub u16 : ℕ → ℕ
u16 v = v % 65536

abbrev pub u32 : ℕ → ℕ
u32 v = v % 4294967296

abbrev pub u64 : ℕ → ℕ
u64 v = v % 18446744073709551616

-- `x >> k`.
abbrev pub shr : ℕ → ℕ → ℕ
shr x k = x / 2 ^ k
