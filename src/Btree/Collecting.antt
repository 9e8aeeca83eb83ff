-- ===== src/Btree/Collecting.antt =====
-- `stbt_scan_collect` of lib/ic0/stable_btree.c copies the entries with the prefix, in the order of
-- their keys.
use idris2_ouc.Base.{
  ℕ, zero, suc, ◌+◌, ◌^◌, ◌≤◌, ◌<◌, ◌≡◌, ◌∙◌, refl, sym, ap, List, [], ◌∷◌, ◌++◌, some, true, false,
  length, append_assoc, arith, inl, inr, Bool-cases, ltb, All,
}
use idris2_ouc.Base.Split.{take_all}
use idris2_ouc.Word.{u32}
use idris2_ouc.Stable.{StableApi}
use idris2_ouc.Btree.Entries.{Entry}
use idris2_ouc.Btree.Layout.{entry_bytes, entry_size, lay, size}
use idris2_ouc.Btree.Refine.{Holds}
use idris2_ouc.Btree.Scan.{Scan, collect_loop}
use idris2_ouc.Btree.Prefix.{starts, run}
use idris2_ouc.Btree.Stepping.{scanning, IsScanned, next-entry, next-finished}

module _ (api : StableApi) (es : List Entry) (m : api.Mem) (h : Holds api es m) (p : List ℕ)
    (fuel buf : ℕ) (small : buf < 2 ^ 32) where
  -- No entry at the scan's place has the prefix.
  collect_none :
      (done todo : List Entry) (n off : ℕ)
      → es ≡ done ++ todo
      → All (λ x. IsScanned x.0 x.1) todo
      → run p todo ≡ []
      → (s' : Scan) × (collect_loop api (suc fuel) n buf off m (scanning api es m h p done)
          ≡ some ([], (0, s')))
  unfolding collect_loop
  collect_none done todo zero off e fine r = (scanning api es m h p done, refl)
  collect_none done todo (suc n) off e fine r =
      let (s', g) = next-finished api es m h p done todo fuel e fine r in (s', rw g refl)

  -- One round writes an entry in front of what the later rounds write.
  collect_more :
      (done : List Entry) (k v : List ℕ) (rest : List Entry) (n off : ℕ) (bs : List ℕ) (c : ℕ)
      (s' : Scan)
      → es ≡ done ++ (k, v) ∷ rest
      → IsScanned k v
      → starts p k ≡ true
      → off + entry_size k v ≤ buf
      → collect_loop api
          (suc fuel)
          n
          buf
          (off + entry_size k v)
          m
          (scanning api es m h p (done ++ (k, v) ∷ []))
        ≡ some (bs, (c, s'))
      → collect_loop api (suc fuel) (suc n) buf off m (scanning api es m h p done)
        ≡ some (entry_bytes k v bs, (c + 1, s'))
  unfolding collect_loop entry_bytes
  collect_more done k v rest n off bs c s' e fine has room more =
      rw
        (
          next-entry api es m h p done k v rest fuel e fine has,
          next_off,
          not_full,
          not_long,
          more,
          take_all (length k) k (omega arith),
          take_all (length v) v (omega arith),
        )
        refl
    where
      next_off : u32 (off + (2 + length k + 2 + length v)) ≡ off + entry_size k v
      next_off = unfold entry_size in omega (arith, small, room)

      not_full : ltb buf (off + entry_size k v) ≡ false
      not_full = ground arith

      not_long : ltb 1024 (length v) ≡ false
      not_long = ground (arith, fine.val_fits)

  pub collect_lem :
      (todo done : List Entry) (n off : ℕ)
      → es ≡ done ++ todo
      → All (λ x. IsScanned x.0 x.1) todo
      → length (run p todo) ≤ n
      → off + size (run p todo) ≤ buf
      → (s' : Scan) × (collect_loop api (suc fuel) n buf off m (scanning api es m h p done)
          ≡ some (lay (run p todo) [], (length (run p todo), s')))
  unfolding run lay size
  collect_lem [] done n off e fine len room = collect_none done [] n off e tt refl
  collect_lem ((k, v) ∷ rest) done zero off e fine len room = elim (Bool-cases (starts p k)) [
    | inl c ↦ absurd (ground arith)
    | inr c ↦ rw c (collect_none done ((k, v) ∷ rest) zero off e fine (rw c refl))
  ]
  collect_lem ((k, v) ∷ rest) done (suc n) off e fine len room = elim (Bool-cases (starts p k)) [
    | inl c ↦
        let (s', g) =
          collect_lem rest (done ++ (k, v) ∷ []) n (off + entry_size k v)
            (e ∙ sym (append_assoc done ((k, v) ∷ []) rest)) fine.1 (ground arith) (ground arith) in
        rw c (
          s',
          collect_more done k v rest n off (lay (run p rest) []) (length (run p rest)) s' e fine.0 c
                (ground arith) g
              ∙ ap (λ c. some (entry_bytes k v (lay (run p rest) []), (c, s'))) (omega arith),
        )
    | inr c ↦ rw c (collect_none done ((k, v) ∷ rest) (suc n) off e fine (rw c refl))
  ]
