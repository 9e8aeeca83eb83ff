-- ===== src/Btree/Reads.antt =====
-- Reading the tree of lib/ic0/stable_btree.c: `stbt_get`, `stbt_count`, and the header that
-- `stbt_init_if_needed` reads back.
use idris2_ouc.Base.{
  ℕ, ◌+◌, ◌^◌, ◌≤◌, ◌<◌, ◌≡◌, ◌∙◌, refl, sym, ap, List, [], ◌++◌, Option, some, none, Bool, true,
  false, ltb, if◌then◌else◌, length, take, get_elem?, arith, inl, inr, Bool-cases, replicate, ◌⊎◌,
}
use idris2_ouc.Base.Split.{take-append, take-append_left, take_all}
use idris2_ouc.Word.Bytes.{write_u32, read_u32, read_u32-write_u32}
use idris2_ouc.Stable.{StableApi}
use idris2_ouc.Stable.Span.{bytes}
use idris2_ouc.Stable.Writes.{write_then}
use idris2_ouc.Btree.{
  Tree, tree_magic, header_bytes, empty_leaf, stbt_read_page, stbt_write_page, stbt_write_header,
  two_bytes, stbt_read_header, stbt_get, stbt_count, stbt_clear, stbt_init_if_needed, get_at, u16,
  descend, levels,
}
use idris2_ouc.Btree.Empty.{length-empty_leaf}
use idris2_ouc.Btree.Entries.{Entry, lookup, is_at, is_at-Found, is_at-lookup, Found}
use idris2_ouc.Btree.Layout.{size, leaf_head, length-size, lay}
use idris2_ouc.Btree.Search.{leaf_page, leaf_find_lem}
use idris2_ouc.Btree.Overwrite.{key_len-found, val_len-found, val-found, val-inside}
use idris2_ouc.Btree.Insert.{length-leaf_page}
use idris2_ouc.Btree.Refine.{running, Holds, leaf-fits, length-header_bytes, u16_small}

-- What `stbt_get` answers for a value: its length, and as much of it as the buffer takes.
unfoldable pub answer : ℕ → Option (List ℕ) → Option (ℕ × List ℕ)
answer max none = none
answer max (some val) = some (length val, take max val)

take_copy :
    (val rest : List ℕ) (max : ℕ)
    → take (if ltb (length val) max then length val else max) (val ++ rest) ≡ take max val
take_copy val rest max = elim (Bool-cases (ltb (length val) max)) [
  | inl c ↦ rw c (take-append val rest ∙ sym (take_all max val (ground arith)))
  | inr c ↦ rw c (take-append_left max val rest (ground arith))
]

pub leaf_kind : (es : List Entry) (back : List ℕ) → get_elem? (leaf_page es back) 0 ≡ some 1
unfolding leaf_page leaf_head
leaf_kind es back = refl

empty_page : empty_leaf ≡ leaf_page [] (replicate 4085 0)
unfolding leaf_page leaf_head lay two_bytes
empty_page = refl

module _ (api : StableApi) where
  open api use {Mem, pages, byte, read_in}

  pub read_leaf :
      (es : List Entry) (m : Mem) (h : Holds api es m)
      → stbt_read_page api 1 m ≡ some (leaf_page es h.back)
  unfolding stbt_read_page
  read_leaf es m h = read_in 4096 4096 m (omega (arith, h.room)) ∙ ap some h.leaf

  get_at_lem :
      (es : List Entry) (m : Mem) (key : List ℕ) (max : ℕ)
      → Holds api es m
      → get_at api key (length key) max 1 m ≡ some (answer max (lookup key es))
  unfolding get_at answer
  get_at_lem es m key max h = elim (Bool-cases (is_at key es)) [
    | inl c ↦
        let f : Found key es = is_at-Found key es c in
        let fits : 11 + size es ≤ 4096 = omega (arith, leaf-fits api es m h) in
        rw
          (
            read_leaf es m h,
            leaf_kind es h.back,
            leaf_find_lem es h.back fits key,
            c,
            key_len-found key es h.back f fits,
            val_len-found key es h.back f fits,
            f.value,
            val-found key es h.back f fits,
            take_copy f.old,
          )
          (ground (
            arith,
            length-leaf_page es h.back,
            leaf-fits api es m h,
            val-inside key es h.back f fits,
          ))
    | inr c ↦
        rw
          (
            read_leaf es m h,
            leaf_kind es h.back,
            leaf_find_lem es h.back (omega (arith, leaf-fits api es m h)) key,
            c,
            is_at-lookup key es h.sorted c,
          )
          refl
  ]

  header_at :
      (es : List Entry) (t : Tree Mem)
      → Holds api es t.mem
      → stbt_read_header api t
        ≡ some (record (running api (length es) t.mem) { initialized = t.initialized })
  unfolding stbt_read_header running header_bytes write_u32 read_u32
  header_at es t h =
      let small : length es < 2 ^ 32 = omega (arith, length-size es, leaf-fits api es t.mem h) in
      rw (read_in 0 20 t.mem (omega (arith, h.room)) ∙ ap some h.header) (
        ap
          (λ c. some (record (running api (length es) t.mem) {
            entry_count = c;
            initialized = t.initialized;
          }))
          (read_u32-write_u32 (length es) (write_u32 1) small))

  -- A tree of the entries: it runs, or the canister has been restarted and only the memory is left.
  abbrev pub IsTreeOf : List Entry → Tree Mem → Type 0
  IsTreeOf es t =
      Holds api es t.mem × ((t ≡ running api (length es) t.mem) ⊎ (t.initialized ≡ false))

  -- In both cases the tree runs after `stbt_init_if_needed`: a restarted canister finds the entries
  -- again, whatever its own fields held.
  pub init-running :
      (es : List Entry) (t : Tree Mem)
      → IsTreeOf es t
      → stbt_init_if_needed api t ≡ some (running api (length es) t.mem)
  unfolding stbt_init_if_needed running
  init-running es t (h, inl e) = rw e refl
  init-running es t (h, inr e) = ground (arith, e, h.room, header_at es t h)

  -- With height 1 the leaf is the root.
  pub down :
      (check : Bool) (key : List ℕ) (k_len n : ℕ) (m : Mem)
      → descend api check key k_len (levels api (running api n m)) 1 m ≡ some (some 1)
  unfolding descend levels running
  down check key k_len n m = refl

  -- `stbt_get` answers what the list of entries has under the key, cut at the buffer's end, and
  -- changes no entry. (A key and a buffer of at most 65535 bytes.)
  pub stbt_get-lookup :
      (es : List Entry) (t : Tree Mem) (key : List ℕ) (max : ℕ)
      → IsTreeOf es t
      → length key < 65536
      → max < 65536
      → stbt_get api key max t ≡ some (answer max (lookup key es), running api (length es) t.mem)
  unfolding stbt_get running
  stbt_get-lookup es t key max h hk hm =
      rw
        (
          init-running es t h,
          down true key (u16 (length key)) (length es) t.mem,
          u16_small (length key) hk,
          u16_small max hm,
          get_at_lem es t.mem key max h.0,
        )
        refl

  -- `stbt_count` is the number of the entries.
  pub count-length :
      (es : List Entry) (t : Tree Mem)
      → IsTreeOf es t
      → stbt_count api t ≡ some (length es, running api (length es) t.mem)
  unfolding stbt_count running
  count-length es t h = rw (init-running es t h) refl

  -- After `stbt_clear` on a memory that has a page the tree has no entry.
  pub clear-Holds :
      (t : Tree Mem)
      → 1 ≤ pages t.mem
      → (m' : Mem) × (stbt_clear api t ≡ some (running api 0 m')) × Holds api [] m'
  unfolding stbt_clear stbt_write_header stbt_write_page running
  clear-Holds t room =
      let head = header_bytes tree_magic 1 2 0 1 in
      let twenty : length head ≡ 20 = length-header_bytes tree_magic 1 2 0 1 in
      write_then api 0 head t.mem (omega (arith, twenty)) λ m1 w1.
        write_then api 4096 empty_leaf m1 (omega (arith, length-empty_leaf, w1.same_pages)) λ m2 w2.
          (
            m2,
            ground (arith, w1.done, w2.done),
            record {
              back = replicate 4085 0;
              leaf = w2.stored ∙ empty_page;
              header =
                  w2.kept 0 20 (inl (omega arith))
                  ∙ ap (bytes (byte m1) 0) (sym twenty)
                  ∙ w1.stored;
              sorted = tt;
              room = omega (arith, w1.same_pages, w2.same_pages);
            },
          )
