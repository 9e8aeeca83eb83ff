-- ===== src/Btree/FirstPut.antt =====
-- The first entry of a tree: what is put is read back.
use idris2_ouc.Base.{
  ℕ, ◌+◌, ◌≤◌, ◌<◌, ◌≡◌, ◌∙◌, sym, refl, ap, List, some, true, false, Bool, length, arith, inr, leb,
  ltb, if◌then◌else◌,
}
use idris2_ouc.Base.Split.{take-append}
use idris2_ouc.Word.{u32}
use idris2_ouc.Word.Bytes.{write_u32}
use idris2_ouc.Stable.{StableApi}
use idris2_ouc.Stable.Span.{bytes}
use idris2_ouc.Stable.Writes.{write_then}
use idris2_ouc.Btree.{
  Tree, header_bytes, stbt_read_page, stbt_write_page, stbt_write_header, stbt_init_if_needed,
  stbt_get, stbt_put, descend, levels, get_at, put_at, u16,
}
use idris2_ouc.Btree.Empty.{IsEmptyTree, find_nothing}
use idris2_ouc.Btree.First.{
  one_leaf, after_entry, insert-empty, find-one, key_len-one, val_len-one, val-one, used-empty,
  length-one_leaf,
}

module _ (api : StableApi) (k v : List ℕ) (hk : length k ≤ 256) (hv : length v ≤ 1024) where
  open api use {Mem, pages, byte, read, write, read_in}

  fits : ltb 4032 (11 + u16 (2 + length k + 2 + length v)) ≡ false
  unfolding u16
  fits = ground arith

  put_at-empty :
      (t : Tree Mem)
      → IsEmptyTree api t
      → (t' : Tree Mem) × (put_at api k (length k) v (length v) 1 t ≡ some (true, t'))
        × (bytes (byte t'.mem) 4096 4096 ≡ one_leaf k v (after_entry k v hk hv))
        × (pages t'.mem ≡ pages t.mem)
        × (t'.height ≡ t.height)
        × (t'.root_page ≡ t.root_page)
        × (t'.initialized ≡ t.initialized)
  unfolding put_at stbt_read_page stbt_write_page stbt_write_header header_bytes write_u32
  put_at-empty t h =
      let page = one_leaf k v (after_entry k v hk hv) in
      write_then api 4096 page t.mem (omega (arith, length-one_leaf k v hk hv, h.room)) λ m1 w1.
        write_then api 0
          (header_bytes t.magic t.root_page t.page_count (u32 (t.entry_count + 1)) t.height) m1
          (omega (arith, w1.same_pages, h.room))
          λ m2 w2. (
            record t { entry_count = u32 (t.entry_count + 1); mem = m2 },
            rw
                (
                  read_in 4096 4096 t.mem (omega (arith, h.room)) ∙ ap some h.leaf,
                  find_nothing api k (length k),
                  used-empty k v hk hv,
                  fits,
                  insert-empty k v hk hv,
                  w1.done,
                  w2.done,
                )
                refl,
            w2.kept 4096 4096 (inr (omega arith))
                ∙ ap (bytes (byte m1) 4096) (sym (length-one_leaf k v hk hv))
                ∙ w1.stored,
            w2.same_pages ∙ w1.same_pages,
            refl,
            refl,
            refl,
          )

  get_at-one :
      (max : ℕ) (m : Mem)
      → 1 ≤ pages m
      → bytes (byte m) 4096 4096 ≡ one_leaf k v (after_entry k v hk hv)
      → length v ≤ max
      → get_at api k (length k) max 1 m ≡ some (some (length v, v))
  unfolding get_at stbt_read_page
  get_at-one max m room e le =
      let back = after_entry k v hk hv in
      rw
        (
          read_in 4096 4096 m (omega (arith, room)) ∙ ap some e,
          find-one k v back hk hv,
          key_len-one k v back hk hv,
          val_len-one k v back hk hv,
          copied,
          length-one_leaf k v hk hv,
          inside,
          val-one k v back hk hv,
          take-append v back,
        )
        refl
    where
      copied : (if ltb (length v) max then length v else max) ≡ length v
      copied = ground arith

      inside : leb (15 + length k + length v) 4096 ≡ true
      inside = ground arith

  descend_none :
      (check : Bool) (t : Tree Mem)
      → t.height ≡ 1
      → descend api check k (length k) (levels api t) t.root_page t.mem ≡ some (some t.root_page)
  unfolding descend levels
  descend_none check t e = rw e refl

-- In a running tree with no entry, `stbt_put` of a key of at most 256 bytes and a value of at most
-- 1024 bytes succeeds, and `stbt_get` of this key answers the value then. (A buffer of at most 65535
-- bytes that has room for the value.)
pub put-get_first :
    (api : StableApi) (k v : List ℕ) (max : ℕ) (t : Tree api.Mem)
    → length k ≤ 256
    → length v ≤ 1024
    → length v ≤ max
    → max < 65536
    → IsEmptyTree api t
    → (t' : Tree api.Mem) × (stbt_put api k v t ≡ some (true, t'))
      × (stbt_get api k max t' ≡ some (some (length v, v), t'))
unfolding stbt_put stbt_get stbt_init_if_needed u16
put-get_first api k v max t hk hv le hm h =
    let (t', e, leaf, same_pages, height, root, ready) = put_at-empty api k v hk hv t h in
    (
      t',
      ground (arith, h.ready, descend_none api k v hk hv false t h.one_level, h.root, e),
      ground (
        arith,
        h.ready,
        ready,
        root,
        h.root,
        descend_none api k v hk hv true t' (height ∙ h.one_level),
        get_at-one api k v hk hv max t'.mem (omega (arith, same_pages, h.room)) leaf le,
      ),
    )
