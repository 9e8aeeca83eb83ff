-- ===== src/Btree/Matches.antt =====
-- `stbt_scan_collect` of lib/ic0/stable_btree.c answers the entries with the prefix, all of them and
-- no others, in the order of their keys.
use idris2_ouc.Base.{
  ℕ, suc, ◌+◌, ◌^◌, ◌≤◌, ◌<◌, ◌≡◌, ◌∙◌, ◌⊎◌, refl, sym, ap, ap₂, List, [], ◌∷◌, ◌++◌, some, Option,
  true, false, Bool, length, arith, inl, inr, ltb, All,
}
use idris2_ouc.Base.Split.{take_all}
use idris2_ouc.Word.{u32}
use idris2_ouc.Word.Bytes.{write_u32}
use idris2_ouc.Stable.{StableApi}
use idris2_ouc.Btree.{Tree, two_bytes}
use idris2_ouc.Btree.Entries.{Entry}
use idris2_ouc.Btree.Layout.{lay, size, leaf_head}
use idris2_ouc.Btree.Search.{leaf_page, count_at}
use idris2_ouc.Btree.Refine.{Holds, leaf-fits, running, u16_small}
use idris2_ouc.Btree.Reads.{IsTreeOf, init-running, read_leaf, leaf_kind, down}
use idris2_ouc.Btree.Scan.{
  Scan, match, passed, ended, stbt_scan_start, scan_start_at, stbt_scan_collect, stbt_scan_stop,
  seek_loop,
}
use idris2_ouc.Btree.Prefix.{starts, run, matching, run-matching}
use idris2_ouc.Btree.Seeking.{Match, seek_lem}
use idris2_ouc.Btree.Stepping.{scanning, IsScanned}
use idris2_ouc.Btree.Places.{no_next_leaf}
use idris2_ouc.Btree.Collecting.{collect_lem}

-- The count and the buffer for the matches: with no match the buffer is left alone.
unfoldable pub collected : List Entry → ℕ × List ℕ
collected [] = (0, [])
collected (e ∷ es) = (length (e ∷ es), write_u32 (length (e ∷ es)) ++ lay (e ∷ es) [])

All-append : (P : Entry → Type 0) (xs ys : List Entry) → All P (xs ++ ys) → All P ys
All-append P [] ys h = h
All-append P (x ∷ xs) ys h = All-append P xs ys h.1

run-first :
    (p k v : List ℕ) (es : List Entry) → starts p k ≡ true → run p ((k, v) ∷ es) ≡ (k, v) ∷ run p es
unfolding run
run-first p k v es c = rw c refl

u32_small : (n : ℕ) → n < 2 ^ 32 → u32 n ≡ n
u32_small n h = omega arith

module _ (api : StableApi) (es : List Entry) (p : List ℕ) (short : length p ≤ 256) where
  open api use {Mem}

  -- The loop over the leaf, as `scan_start_at` runs it.
  seek_at :
      (m : Mem) (h : Holds api es m)
      → ((f : Match p es) × (seek_loop (leaf_page es h.back) p (length p) (length es) 11
            ≡ some (match (11 + size f.done))))
        ⊎ ((matching p es ≡ [])
            × ((seek_loop (leaf_page es h.back) p (length p) (length es) 11 ≡ some passed)
                ⊎ (seek_loop (leaf_page es h.back) p (length p) (length es) 11 ≡ some ended)))
  unfolding leaf_page leaf_head two_bytes
  seek_at m h =
      seek_lem es (leaf_page es h.back) (leaf_head (length es)) h.back p 11 refl refl
        (omega (arith, leaf-fits api es m h)) h.sorted

  -- The scan after its start.
  start_at :
      (m : Mem) (s : Scan) (h : Holds api es m)
      → s.prefix ≡ p
      → s.prefix_len ≡ length p
      → ((f : Match p es) × (scan_start_at api p (length p) 1 m s
            ≡ some (some true, scanning api es m h p f.done)))
        ⊎ ((matching p es ≡ [])
            × (s' : Scan) × (scan_start_at api p (length p) 1 m s ≡ some (some false, s')))
  unfolding scan_start_at scanning
  start_at m s h e el = elim (seek_at m h) [
    | inl (f, g) ↦ inl (
      f,
      rw
          (
            read_leaf api es m h,
            leaf_kind es h.back,
            count_at es h.back (omega (arith, leaf-fits api es m h)),
            g,
          )
          (ap₂
            (λ q l. some (
              some true,
              record s {
                leaf_page = 1;
                leaf_offset = 11 + size f.done;
                prefix = q;
                prefix_len = l;
                active = true;
              },
            ))
            e el),
    )
    | inr (none_has, inl g) ↦ inr (
      none_has,
      record s { active = false },
      rw
          (
            read_leaf api es m h,
            leaf_kind es h.back,
            count_at es h.back (omega (arith, leaf-fits api es m h)),
            g,
          )
          refl,
    )
    | inr (none_has, inr g) ↦ inr (
      none_has,
      record s { active = false },
      rw
          (
            read_leaf api es m h,
            leaf_kind es h.back,
            count_at es h.back (omega (arith, leaf-fits api es m h)),
            g,
            no_next_leaf es h.back,
          )
          refl,
    )
  ]

  -- Every entry has a key, and is small enough for the buffers of the scan.
  abbrev AreScanned : Type 0
  AreScanned = All (λ x. IsScanned x.0 x.1) es

  started :
      (t : Tree Mem) (s0 : Scan)
      → IsTreeOf api es t
      → (out : Option Bool) (s' : Scan)
      → scan_start_at api p (length p) 1 t.mem (record s0 { prefix = p; prefix_len = length p })
        ≡ some (out, s')
      → stbt_scan_start api p t s0 ≡ some (out, (running api (length es) t.mem, s'))
  unfolding stbt_scan_start running
  started t s0 h out s' g =
      rw
        (
          init-running api es t h,
          u16_small (length p) (omega arith),
          short_test,
          down api true p (length p) (length es) t.mem,
          u16_small (length p) (omega arith),
          take_all (length p) p (omega arith),
          g,
        )
        refl
    where
      short_test : ltb 256 (length p) ≡ false
      short_test = ground arith

  -- With room in the buffer for the matches and `max_results` not below their number,
  -- `stbt_scan_collect` answers their number and, where there are any, writes it and the matches
  -- themselves, as a leaf lays them out, in the order of their keys; it misses none and adds none.
  -- With no match it writes nothing. (A prefix of at most 256 bytes; no key of the tree is empty,
  -- and none has more than 256 bytes, no value more than 1024; `buf_size` and `max_results` are
  -- below 2^32.)
  pub collect-matching :
      (t : Tree Mem) (s0 : Scan) (fuel buf_size max_results : ℕ)
      → IsTreeOf api es t
      → AreScanned
      → buf_size < 2 ^ 32
      → max_results < 2 ^ 32
      → length (matching p es) ≤ max_results
      → 4 + size (matching p es) ≤ buf_size
      → (s' : Scan) × (stbt_scan_collect api (suc fuel) p buf_size max_results t s0
          ≡ some (some (collected (matching p es)), (running api (length es) t.mem, s')))
  unfolding stbt_scan_collect collected running
  collect-matching t s0 fuel buf max h fine hb hm enough room =
      elim (start_at t.mem (record s0 { prefix = p; prefix_len = length p }) h.0 refl refl) [
        | inl (f, g) ↦
            let has : matching p es ≡ (f.key, f.val) ∷ run p f.rest =
              f.none_before
              ∙ sym (run-matching p f.key f.val f.rest f.has f.sorted)
              ∙ run-first p f.key f.val f.rest f.has in
            let first = run-first p f.key f.val f.rest f.has in
            let (s', c) =
              collect_lem api es t.mem h.0 p fuel buf hb ((f.key, f.val) ∷ f.rest) f.done max 4
                f.parts
                (All-append (λ x. IsScanned x.0 x.1) f.done ((f.key, f.val) ∷ f.rest)
                  (split fine f.parts))
                (omega (arith, enough, ap length has, ap length first))
                (omega (arith, room, ap size has, ap size first)) in
            (
              stbt_scan_stop s',
              rw
                  (
                    started t s0 h (some true) (scanning api es t.mem h.0 p f.done) g,
                    u32_small max hm,
                    u32_small buf hb,
                    c,
                    long_buffer,
                    has,
                    first,
                  )
                  refl,
            )
        | inr (none_has, s', g) ↦ (s', rw (started t s0 h (some false) s' g, none_has) refl)
      ]
    where
      split :
          {xs ys : List Entry}
          → All (λ x. IsScanned x.0 x.1) xs
          → xs ≡ ys
          → All (λ x. IsScanned x.0 x.1) ys
      split a e = rw (sym e) a

      long_buffer : ltb buf 4 ≡ false
      long_buffer = ground arith
