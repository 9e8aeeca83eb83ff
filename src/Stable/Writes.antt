-- ===== src/Stable/Writes.antt =====
-- What one successful write leaves behind, in terms of runs of bytes.
use idris2_ouc.Base.{ℕ, ◌+◌, ◌*◌, ◌≤◌, ◌≡◌, ◌∙◌, ◌⊎◌, List, some, length}
use idris2_ouc.Stable.{StableApi}
use idris2_ouc.Stable.Span.{bytes, patch, bytes_congr, bytes-patch_self, bytes-patch_apart}

module _ (api : StableApi) where
  open api use {Mem, pages, byte, write, write_in}

  -- The memory `m'` that a write of `bs` at `o` leaves.
  pub record Written (o : ℕ) (bs : List ℕ) (m m' : Mem) : Type 0 where
    pub done : write o bs m ≡ some m'
    pub same_pages : pages m' ≡ pages m
    pub stored : bytes (byte m') o (length bs) ≡ bs
    pub kept :
        (a n : ℕ) → ((a + n ≤ o) ⊎ (o + length bs ≤ a)) → bytes (byte m') a n ≡ bytes (byte m) a n

  pub written :
      (o : ℕ) (bs : List ℕ) (m : Mem)
      → o + length bs ≤ pages m * 65536
      → (m' : Mem) × Written o bs m m'
  written o bs m fits =
      let (m', e, p, b) = write_in o bs m fits in
      (
        m',
        record {
          done = e;
          same_pages = p;
          stored =
              bytes_congr (byte m') (patch o bs (byte m)) o (length bs) (λ a _ _. b a)
              ∙ bytes-patch_self (byte m) o bs;
          kept = λ a n apart.
              bytes_congr (byte m') (patch o bs (byte m)) a n (λ x _ _. b x)
              ∙ bytes-patch_apart (byte m) o bs a n apart;
        },
      )

  -- Goes on from the memory that a write inside the memory leaves.
  pub write_then :
      {G : Type 0} (o : ℕ) (bs : List ℕ) (m : Mem)
      → o + length bs ≤ pages m * 65536
      → ((m' : Mem) → Written o bs m m' → G)
      → G
  write_then o bs m fits next = let (m', w) = written o bs m fits in next m' w
