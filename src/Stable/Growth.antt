-- ===== src/Stable/Growth.antt =====
-- Room in a memory that the system lets grow.
use idris2_ouc.Base.{ℕ, ◌+◌, ◌-◌, ◌*◌, ◌/◌, ◌≤◌, ◌<◌, ◌≡◌, refl, arith}
use idris2_ouc.Stable.{StableApi}
use idris2_ouc.Stable.Span.{bytes, bytes_congr}

module _ (api : StableApi) where
  open api use {Mem, pages, byte, grow, byte-grow}

  -- The system grants pages as long as 32-bit addresses reach them.
  abbrev pub GrowsTo32 : Type 0
  GrowsTo32 = (n : ℕ) (m : Mem) → pages m + n < 65536 → pages (grow n m) ≡ pages m + n

  -- `m'` has room for `needed` bytes, and every byte of `m`.
  pub record HasRoom (needed : ℕ) (m m' : Mem) : Type 0 where
    pub room : needed ≤ pages m' * 65536
    pub small : pages m' < 65536
    pub same : (a n : ℕ) → a + n ≤ pages m * 65536 → bytes (byte m') a n ≡ bytes (byte m) a n

  pub stay-HasRoom :
      (needed : ℕ) (m : Mem) → needed ≤ pages m * 65536 → pages m < 65536 → HasRoom needed m m
  stay-HasRoom needed m le small = record { room = le; small = small; same = λ a n p. refl }

  pub grow-HasRoom :
      (needed asked : ℕ) (m : Mem)
      → GrowsTo32
      → needed ≤ 65535 * 65536
      → pages m * 65536 < needed
      → asked ≡ (needed + 65535) / 65536 - pages m
      → HasRoom needed m (grow asked m)
  grow-HasRoom needed asked m grows h more e =
      let p : pages (grow asked m) ≡ pages m + asked = grows asked m (omega arith) in
      record {
        room = omega arith;
        small = omega arith;
        same = λ a n q.
            bytes_congr (byte (grow asked m)) (byte m) a n
              (λ x _ r. byte-grow asked m x (omega arith));
      }
