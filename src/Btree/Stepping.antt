-- ===== src/Btree/Stepping.antt =====
-- `stbt_scan_next` of lib/ic0/stable_btree.c on a leaf: it answers the entry at the scan's place and
-- moves on, or finishes.
use idris2_ouc.Base.{
  ℕ, suc, ◌+◌, ◌≤◌, ◌<◌, ◌≡◌, ◌∙◌, refl, ap, List, [], ◌∷◌, ◌++◌, some, none, true, false, length,
  length-append, append_assoc, drop, arith, ltb, ◌==◌, ◌&&◌, ◌||◌, All,
}
use idris2_ouc.Stable.{StableApi}
use idris2_ouc.Btree.{half_word, two_bytes, u16}
use idris2_ouc.Btree.Entries.{Entry}
use idris2_ouc.Btree.Layout.{
  entry_bytes, entry_size, lay, size, size-append, lay-append, length-lay, leaf_head, key_len_at,
  key_at, val_len_at, val_at,
}
use idris2_ouc.Btree.Search.{leaf_page, count_at}
use idris2_ouc.Btree.Insert.{length-leaf_page}
use idris2_ouc.Btree.Refine.{Holds, leaf-fits}
use idris2_ouc.Btree.Reads.{read_leaf, leaf_kind}
use idris2_ouc.Btree.Scan.{
  Scan, Next, finished, entry, index_loop, copy_out, at_most, scan_entry, scan_leaves,
  stbt_scan_next, stbt_has_prefix,
}
use idris2_ouc.Btree.Prefix.{starts, run}
use idris2_ouc.Btree.Seeking.{has_prefix_at}
use idris2_ouc.Btree.Places.{index_lem, copy_out_at, at_most_lem, leaf_page-at, no_next_leaf}

-- Entries that a scan copies whole.
pub record IsScanned (k v : List ℕ) : Type 0 where
  pub some_key : 0 < length k
  pub key_fits : length k ≤ 256
  pub val_fits : length v ≤ 1024

module _ (api : StableApi) (es : List Entry) (m : api.Mem) (h : Holds api es m) (p : List ℕ) where
  -- A scan for the prefix whose next entry is the one after `done`.
  unfoldable pub scanning : List Entry → Scan
  scanning done = record {
    leaf_page = 1;
    leaf_offset = 11 + size done;
    prefix = p;
    prefix_len = length p;
    active = true;
  }

  module _ (done todo : List Entry) (e : es ≡ done ++ todo) where
    front : List ℕ
    front = leaf_head (length es) ++ lay done []

    page_at : leaf_page es h.back ≡ front ++ lay todo h.back
    unfolding front
    page_at = leaf_page-at es done todo h.back e

    offset_at : 11 + size done ≡ length front
    unfolding front leaf_head two_bytes
    offset_at = omega (arith, length-lay done [])

    size_at : size es ≡ size done + size todo
    size_at = ap size e ∙ size-append done todo

    count-split : length es ≡ length done + length todo
    count-split = ap length e ∙ length-append done todo

    -- Up to the entry, `scan_leaves` reads the leaf and counts the entries before it.
    index_at :
        index_loop (leaf_page es h.back) (11 + size done) (length es) 11 0 ≡ some (length done)
    index_at =
        index_lem done (leaf_page es h.back) (leaf_head (length es)) (lay todo h.back)
          (11 + size done) 11 0 (length es)
          (page_at'
            ∙ append_assoc (leaf_head (length es)) (lay done []) (lay todo h.back)
            ∙ ap (λ r. leaf_head (length es) ++ r) (lay-append done [] (lay todo h.back)))
          head_size refl (omega (arith, size_at, leaf-fits api es m h)) (omega (arith, count-split))
        ∙ ap some (omega arith)
      where
        page_at' : leaf_page es h.back ≡ (leaf_head (length es) ++ lay done []) ++ lay todo h.back
        page_at' = leaf_page-at es done todo h.back e

        head_size : 11 ≡ length (leaf_head (length es))
        head_size = unfold leaf_head two_bytes in refl

  -- The scan answers what it finds at its place in the leaf.
  next_here :
      (done todo : List Entry) (fuel : ℕ) (out : Next × Scan)
      → es ≡ done ++ todo
      → scan_entry (leaf_page es h.back) (length es) (length done) 256 1024 (scanning done)
        ≡ some (some out)
      → stbt_scan_next api (suc fuel) 256 1024 m (scanning done) ≡ some out
  unfolding stbt_scan_next scan_leaves scanning u16
  next_here done todo fuel out e g =
      rw
        (
          read_leaf api es m h,
          leaf_kind es h.back,
          count_at es h.back (omega (arith, leaf-fits api es m h)),
          index_at done todo e,
          g,
        )
        refl

  -- There is no next leaf.
  next_end :
      (done : List Entry) (fuel : ℕ)
      → es ≡ done ++ []
      → scan_entry (leaf_page es h.back) (length es) (length done) 256 1024 (scanning done)
        ≡ some none
      → stbt_scan_next api (suc fuel) 256 1024 m (scanning done)
        ≡ some
            (finished, record (scanning done) { leaf_page = 0; leaf_offset = 11; active = false })
  unfolding stbt_scan_next scan_leaves scanning u16
  next_end done fuel e g =
      rw
        (
          read_leaf api es m h,
          leaf_kind es h.back,
          count_at es h.back (omega (arith, leaf-fits api es m h)),
          index_at done [] e,
          g,
          no_next_leaf es h.back,
        )
        refl

  entry_end :
      (done : List Entry)
      → es ≡ done ++ []
      → scan_entry (leaf_page es h.back) (length es) (length done) 256 1024 (scanning done)
        ≡ some none
  unfolding scan_entry
  entry_end done e = ground (arith, count-split done [] e)

  module _ (done : List Entry) (k v : List ℕ) (rest : List Entry) (e : es ≡ done ++ (k, v) ∷ rest)
      (fine : IsScanned k v) where
    abbrev pos : ℕ
    pos = 11 + size done

    page_of :
        leaf_page es h.back ≡ front done ((k, v) ∷ rest) e ++ entry_bytes k v (lay rest h.back)
    unfolding lay
    page_of = page_at done ((k, v) ∷ rest) e

    ends : pos + entry_size k v + size rest ≤ 4096
    unfolding size
    ends = omega (arith, size_at done ((k, v) ∷ rest) e, leaf-fits api es m h)

    key_small : length k < 65536
    key_small = omega (arith, fine.key_fits)

    val_small : length v < 65536
    val_small = omega (arith, fine.val_fits)

    key_len_of : half_word (leaf_page es h.back) pos ≡ some (length k)
    key_len_of =
        key_len_at (leaf_page es h.back) (front done ((k, v) ∷ rest) e) k v (lay rest h.back) pos
          page_of (offset_at done ((k, v) ∷ rest) e) key_small val_small

    has_prefix_of :
        stbt_has_prefix (drop (pos + 2) (leaf_page es h.back)) (length k) p (length p)
        ≡ some (starts p k)
    has_prefix_of =
        has_prefix_at (leaf_page es h.back) (front done ((k, v) ∷ rest) e) k v (lay rest h.back) pos
          page_of (offset_at done ((k, v) ∷ rest) e) key_small val_small p

    in_leaf : (ltb pos 4092 && ltb (length done) (length es)) ≡ true
    unfolding entry_size
    in_leaf = ground (arith, ends, fine.some_key, count-split done ((k, v) ∷ rest) e)

    is_key : (length k == 0 || ltb 256 (length k)) ≡ false
    is_key = ground (arith, fine.some_key, fine.key_fits)

    entry_stop :
        starts p k ≡ false
        → scan_entry (leaf_page es h.back) (length es) (length done) 256 1024 (scanning done)
          ≡ some (some (finished, record (scanning done) { active = false }))
    unfolding scan_entry scanning
    entry_stop c = rw (in_leaf, key_len_of, is_key, has_prefix_of, c) refl

    entry_found :
        starts p k ≡ true
        → scan_entry (leaf_page es h.back) (length es) (length done) 256 1024 (scanning done)
          ≡ some (some (entry (length k) k (length v) v, scanning (done ++ (k, v) ∷ [])))
    unfolding scan_entry scanning
    entry_found c =
        rw (in_leaf, key_len_of, is_key, has_prefix_of, c, val_len_of, key_copied, val_copied)
          (ap
            (λ n.
              some (
                some (entry (length k) k (length v) v, record (scanning done) { leaf_offset = n })))
            moved)
      where
        val_len_of : half_word (leaf_page es h.back) (pos + 2 + length k) ≡ some (length v)
        val_len_of =
            val_len_at (leaf_page es h.back) (front done ((k, v) ∷ rest) e) k v (lay rest h.back)
              pos page_of (offset_at done ((k, v) ∷ rest) e) key_small val_small

        whole : length (leaf_page es h.back) ≡ 4096
        whole = omega (arith, length-leaf_page es h.back, leaf-fits api es m h)

        key_copied : copy_out (pos + 2) (at_most (length k) 256) (leaf_page es h.back) ≡ some k
        key_copied =
            copy_out_at (leaf_page es h.back) k (two_bytes (length v) ++ (v ++ lay rest h.back))
              (pos + 2) (at_most (length k) 256)
              (key_at (leaf_page es h.back) (front done ((k, v) ∷ rest) e) k v (lay rest h.back) pos
                page_of (offset_at done ((k, v) ∷ rest) e) key_small val_small)
              (at_most_lem (length k) 256 fine.key_fits)
              (unfold entry_size in omega (arith, ends, whole))

        val_copied :
            copy_out (pos + 4 + length k) (at_most (length v) 1024) (leaf_page es h.back) ≡ some v
        val_copied =
            copy_out_at (leaf_page es h.back) v (lay rest h.back) (pos + 4 + length k)
              (at_most (length v) 1024)
              (val_at (leaf_page es h.back) (front done ((k, v) ∷ rest) e) k v (lay rest h.back) pos
                page_of (offset_at done ((k, v) ∷ rest) e) key_small val_small)
              (at_most_lem (length v) 1024 fine.val_fits)
              (unfold entry_size in omega (arith, ends, whole))

        moved : u16 (pos + (2 + length k + 2 + length v)) ≡ 11 + size (done ++ (k, v) ∷ [])
        moved = unfold u16 size entry_size in omega (arith, ends, size-append done ((k, v) ∷ []))

  -- The scan answers the entry at its place and moves behind it.
  pub next-entry :
      (done : List Entry) (k v : List ℕ) (rest : List Entry) (fuel : ℕ)
      → es ≡ done ++ (k, v) ∷ rest
      → IsScanned k v
      → starts p k ≡ true
      → stbt_scan_next api (suc fuel) 256 1024 m (scanning done)
        ≡ some (entry (length k) k (length v) v, scanning (done ++ (k, v) ∷ []))
  next-entry done k v rest fuel e fine c =
      next_here done ((k, v) ∷ rest) fuel
        (entry (length k) k (length v) v, scanning (done ++ (k, v) ∷ [])) e
        (entry_found done k v rest e fine c)

  -- It finishes at an entry without the prefix, and at the end.
  pub next-finished :
      (done todo : List Entry) (fuel : ℕ)
      → es ≡ done ++ todo
      → All (λ x. IsScanned x.0 x.1) todo
      → run p todo ≡ []
      → (s' : Scan) × (stbt_scan_next api (suc fuel) 256 1024 m (scanning done)
          ≡ some (finished, s'))
  unfolding run
  next-finished done [] fuel e fine r = (
    record (scanning done) { leaf_page = 0; leaf_offset = 11; active = false },
    next_end done fuel e (entry_end done e),
  )
  next-finished done ((k, v) ∷ rest) fuel e fine r = (
    record (scanning done) { active = false },
    next_here done ((k, v) ∷ rest) fuel (finished, record (scanning done) { active = false }) e
        (entry_stop done k v rest e fine.0 (ground arith)),
  )
