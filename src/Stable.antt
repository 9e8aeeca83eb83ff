-- ===== src/Stable.antt =====
-- The stable memory of the Internet Computer, as lib/ic0 calls it (`ic0_stable_size_impl`,
-- `ic0_stable_grow_impl`, `ic0_stable_read_impl`, `ic0_stable_write_impl` and the 64-bit ones).
-- The system is not part of the repository: it is an interface with the documented laws.
pub mod Span
pub mod Flat
pub mod Writes
pub mod Growth
use idris2_ouc.Base.{ℕ, ◌+◌, ◌*◌, ◌≤◌, ◌<◌, ◌≡◌, ◌⊎◌, List, Option, some, length}
use idris2_ouc.Stable.Span.{bytes, patch}

abbrev pub page_size : ℕ
page_size = 65536

pub record StableApi : Type 1 where
  -- A memory, its number of pages, and the byte at an address.
  pub Mem : Type 0
  pub pages : Mem → ℕ
  pub byte : Mem → ℕ → ℕ
  -- `grow n` asks for `n` more pages. No caller looks at its answer.
  pub grow : ℕ → Mem → Mem
  -- `read offset size` and `write offset bytes`; `none` is a trap.
  pub read : ℕ → ℕ → Mem → Option (List ℕ)
  pub write : ℕ → List ℕ → Mem → Option Mem
  -- Growing either adds the pages or fails and changes nothing; it keeps what is stored.
  pub pages-grow : (n : ℕ) (m : Mem) → (pages (grow n m) ≡ pages m + n) ⊎ (grow n m ≡ m)
  pub byte-grow : (n : ℕ) (m : Mem) (a : ℕ) → a < pages m * 65536 → byte (grow n m) a ≡ byte m a
  -- Access inside the memory does not trap, reads what is stored, and writes only there.
  pub read_in :
      (o n : ℕ) (m : Mem) → o + n ≤ pages m * 65536 → read o n m ≡ some (bytes (byte m) o n)
  pub write_in :
      (o : ℕ) (bs : List ℕ) (m : Mem)
      → o + length bs ≤ pages m * 65536
      → (m' : Mem) × (write o bs m ≡ some m')
        × (pages m' ≡ pages m)
        × ((a : ℕ) → byte m' a ≡ patch o bs (byte m) a)
