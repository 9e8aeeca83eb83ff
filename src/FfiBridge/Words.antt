-- ===== src/FfiBridge/Words.antt =====
-- Words in stable memory: what is written is read.
use idris2_ouc.Base.{ℕ, ◌+◌, ◌-◌, ◌/◌, ◌≤◌, ◌<◌, ◌^◌, ◌≡◌, refl, some, arith, dec_lt}
use idris2_ouc.Word.{u32, IsU64}
use idris2_ouc.Word.Bytes.{
  write_u32, write_u64, read_u32-write_u32_end, read_u64-write_u64_end, length-write_u32,
  length-write_u64,
}
use idris2_ouc.Stable.{StableApi}
use idris2_ouc.Stable.Writes.{write_then}
use idris2_ouc.Stable.Growth.{GrowsTo32, HasRoom, stay-HasRoom, grow-HasRoom}
use idris2_ouc.FfiBridge.{
  sign_extend, needed_pages, grow_for, ic_stable_write_i64, ic_stable_read_i64, ic_stable_write_i32,
  ic_stable_read_i32,
}

module _ (api : StableApi) where
  open api use {Mem, pages, byte, grow, read, write, read_in}

  grow_for-HasRoom :
      (o size : ℕ) (m : Mem)
      → GrowsTo32 api
      → size ≤ 8
      → o + 65543 < 2 ^ 31
      → pages m < 65536
      → (m' : Mem) × (grow_for api o size m ≡ some m') × HasRoom api (o + size) m m'
  unfolding grow_for needed_pages
  grow_for-HasRoom o size m grows hs ho small =
      elim (dec_lt (pages m) ((o + size + 65535) / 65536)) [
        | yes more ↦ (
          grow ((o + size + 65535) / 65536 - pages m) m,
          ground arith,
          grow-HasRoom api (o + size) ((o + size + 65535) / 65536 - pages m) m grows (omega arith)
              (omega arith) refl,
        )
        | no enough ↦ (m, ground arith, stay-HasRoom api (o + size) m (omega arith) small)
      ]

  -- `ic_stable_read_i64` reads the 64 bits that `ic_stable_write_i64` wrote at the same offset, which
  -- grows the memory where that is needed. (An offset below 2^31 - 65543, a memory below 2^16 pages, a
  -- system that grants pages.)
  pub write_i64-read_i64 :
      (o v : ℕ) (m : Mem)
      → GrowsTo32 api
      → o + 65543 < 2 ^ 31
      → pages m < 65536
      → IsU64 v
      → (m' : Mem) × (ic_stable_write_i64 api o v m ≡ some m')
        × (ic_stable_read_i64 api o m' ≡ some v)
  unfolding ic_stable_write_i64 ic_stable_read_i64
  write_i64-read_i64 o v m grows ho small hv =
      let (m1, e, r) = grow_for-HasRoom o 8 m grows (omega arith) ho small in
      write_then api o (write_u64 v) m1 (omega (arith, length-write_u64 v, r.room)) λ m' w. (
        m',
        ground (arith, e, w.done),
        ground (
          arith,
          read_in o 8 m' (omega (arith, w.same_pages, r.room)),
          length-write_u64 v,
          w.stored,
          read_u64-write_u64_end v hv,
        ),
      )

  -- `ic_stable_read_i32` reads the low 32 bits that `ic_stable_write_i32` wrote at the same offset,
  -- sign-extended. (Conditions on offset, memory and system as for 64 bits: an offset below
  -- 2^31 - 65543, a memory below 2^16 pages, a system that grants pages.)
  pub write_i32-read_i32 :
      (o v : ℕ) (m : Mem)
      → GrowsTo32 api
      → o + 65543 < 2 ^ 31
      → pages m < 65536
      → (m' : Mem) × (ic_stable_write_i32 api o v m ≡ some m')
        × (ic_stable_read_i32 api o m' ≡ some (sign_extend (u32 v)))
  unfolding ic_stable_write_i32 ic_stable_read_i32
  write_i32-read_i32 o v m grows ho small =
      let (m1, e, r) = grow_for-HasRoom o 4 m grows (omega arith) ho small in
      write_then api o (write_u32 (u32 v)) m1 (omega (arith, length-write_u32 (u32 v), r.room))
        λ m' w. (
          m',
          ground (arith, e, w.done),
          ground (
            arith,
            read_in o 4 m' (omega (arith, w.same_pages, r.room)),
            length-write_u32 (u32 v),
            w.stored,
            read_u32-write_u32_end (u32 v) (omega arith),
          ),
        )
