-- ===== src/Stable/Flat.antt =====
-- A concrete stable memory that meets the interface: a function with a number of pages.
use idris2_ouc.Base.{
  ℕ, ◌+◌, ◌*◌, ◌≤◌, ◌≡◌, refl, inl, List, Option, none, some, arith, leb, if◌then◌else◌, length,
}
use idris2_ouc.Stable.{StableApi}
use idris2_ouc.Stable.Span.{bytes, patch}

pub record Flat : Type 0 where
  pub size : ℕ
  pub cell : ℕ → ℕ

abbrev pub flat_grow : ℕ → Flat → Flat
flat_grow n m = record m { size = m.size + n }

abbrev pub flat_read : ℕ → ℕ → Flat → Option (List ℕ)
flat_read o n m = if leb (o + n) (m.size * 65536) then some (bytes m.cell o n) else none

abbrev pub flat_write : ℕ → List ℕ → Flat → Option Flat
flat_write o bs m =
    if leb (o + length bs) (m.size * 65536)
    then some (record m { cell = patch o bs m.cell })
    else none

pub flat_read_in :
    (o n : ℕ) (m : Flat) → o + n ≤ m.size * 65536 → flat_read o n m ≡ some (bytes m.cell o n)
flat_read_in o n m h = ground arith

pub flat_write_in :
    (o : ℕ) (bs : List ℕ) (m : Flat)
    → o + length bs ≤ m.size * 65536
    → (m' : Flat) × (flat_write o bs m ≡ some m')
      × (m'.size ≡ m.size)
      × ((a : ℕ) → m'.cell a ≡ patch o bs m.cell a)
flat_write_in o bs m h = (record m { cell = patch o bs m.cell }, ground arith, refl, λ a. refl)

abbrev pub flat : StableApi
flat = record {
  Mem = Flat;
  pages = λ m. m.size;
  byte = λ m. m.cell;
  grow = flat_grow;
  read = flat_read;
  write = flat_write;
  pages-grow = λ n m. inl refl;
  byte-grow = λ n m a h. refl;
  read_in = flat_read_in;
  write_in = flat_write_in;
}

abbrev pub empty_memory : Flat
empty_memory = record { size = 0; cell = λ _. 0 }
