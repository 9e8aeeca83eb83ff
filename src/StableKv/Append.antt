-- ===== src/StableKv/Append.antt =====
-- Appending an entry: capacity, four writes and the header.
use idris2_ouc.Base.{
  ℕ, ◌+◌, ◌-◌, ◌*◌, ◌/◌, ◌≤◌, ◌<◌, ◌≡◌, ◌∙◌, sym, refl, ap, List, [], ◌∷◌, ◌++◌, some, length,
  arith, dec_lt, length-append,
}
use idris2_ouc.Base.Split.{take_all}
use idris2_ouc.Word.{u32}
use idris2_ouc.Word.Bytes.{write_u32, length-write_u32}
use idris2_ouc.Stable.{StableApi}
use idris2_ouc.Stable.Span.{bytes}
use idris2_ouc.Stable.Growth.{GrowsTo32, HasRoom, stay-HasRoom, grow-HasRoom}
use idris2_ouc.Stable.Writes.{Written, write_then}
use idris2_ouc.StableKv.{Kv, ensure_capacity, append_entry, entry_size, flush_header, header}
use idris2_ouc.StableKv.Log.{Log, entry_len}
use idris2_ouc.StableKv.Layout.{
  IsEntry, Entries-keep, Entries-append, Holds, Agrees, log_size-append, length-le-log_size,
}

pub length-header : (c n : ℕ) → length (header c n) ≡ 12
unfolding header write_u32
length-header c n = refl

module _ (api : StableApi) where
  open api use {Mem, pages, byte, grow, byte-grow, write}

  pub ensure_capacity-HasRoom :
      (needed : ℕ) (m : Mem)
      → GrowsTo32 api
      → needed ≤ 65535 * 65536
      → pages m < 65536
      → HasRoom api needed m (ensure_capacity api needed m)
  unfolding ensure_capacity
  ensure_capacity-HasRoom needed m grows h small = elim (dec_lt (pages m * 65536) needed) [
    | no le ↦ rw (stays (omega arith)) (stay-HasRoom api needed m (omega arith) small)
    | yes more ↦ rw (grown more) (grow-HasRoom api needed _ m grows h more (omega arith))
  ]
    where
      stays : needed ≤ pages m * 65536 → ensure_capacity api needed m ≡ m
      stays le = ground arith

      grown :
          pages m * 65536 < needed
          → ensure_capacity api needed m
            ≡ grow (u32 (u32 (needed + 65535) / 65536 + 4294967296 - pages m)) m
      grown more = ground arith

  -- The five writes of `append_entry`, one memory after the other.
  record Steps (k v : List ℕ) (s : Kv Mem) (m0 m1 m2 m3 m4 m5 : Mem) : Type 0 where
    ready : HasRoom api (s.next_free + entry_len k v) s.mem m0
    w1 : Written api s.next_free (write_u32 (length k)) m0 m1
    w2 : Written api (s.next_free + 4) k m1 m2
    w3 : Written api (s.next_free + 4 + length k) (write_u32 (length v)) m2 m3
    w4 : Written api (s.next_free + 4 + length k + 4) v m3 m4
    w5 : Written api 0 (header (s.count + 1) (s.next_free + entry_len k v)) m4 m5

  abbrev after : List ℕ → List ℕ → Kv Mem → Mem → Kv Mem
  after k v s m = record s { next_free = s.next_free + entry_len k v; count = s.count + 1; mem = m }

  module _ (k v : List ℕ) (s : Kv Mem) (es : Log) (h : Holds api s es)
      (fits : s.next_free + entry_len k v ≤ 65535 * 65536) where
    Steps-done :
        {m1 m2 m3 m4 m5 : Mem}
        → Steps k v s (ensure_capacity api (s.next_free + entry_len k v) s.mem) m1 m2 m3 m4 m5
        → append_entry api k v s ≡ some (after k v s m5)
    unfolding append_entry entry_size flush_header
    Steps-done t = ground (
      arith,
      t.w1.done,
      t.w2.done,
      t.w3.done,
      t.w4.done,
      t.w5.done,
      take_all (length k) k,
      take_all (length v) v,
      length-le-log_size es,
      h.counted,
      h.next,
    )

    Steps-IsEntry :
        {m0 m1 m2 m3 m4 m5 : Mem}
        → Steps k v s m0 m1 m2 m3 m4 m5
        → IsEntry (byte m5) s.next_free k v
    unfolding write_u32 header
    Steps-IsEntry t = record {
      key_len =
          w5.kept o 4 (omega (arith, h.next))
          ∙ w4.kept o 4 (omega arith)
          ∙ w3.kept o 4 (omega arith)
          ∙ w2.kept o 4 (omega arith)
          ∙ w1.stored;
      key =
          w5.kept (o + 4) (length k) (omega (arith, h.next))
          ∙ w4.kept (o + 4) (length k) (omega arith)
          ∙ w3.kept (o + 4) (length k) (omega arith)
          ∙ w2.stored;
      val_len =
          w5.kept (o + 4 + length k) 4 (omega (arith, h.next))
          ∙ w4.kept (o + 4 + length k) 4 (omega arith)
          ∙ w3.stored;
      val = w5.kept (o + 4 + length k + 4) (length v) (omega (arith, h.next)) ∙ w4.stored;
    }
      where
        open t use {w1, w2, w3, w4, w5}

        o : ℕ
        o = s.next_free

    Steps-keep :
        {m0 m1 m2 m3 m4 m5 : Mem}
        → Steps k v s m0 m1 m2 m3 m4 m5
        → Agrees (byte s.mem) (byte m5) 12 s.next_free
    unfolding header write_u32
    Steps-keep t a n p q =
        w5.kept a n (omega arith)
        ∙ w4.kept a n (omega arith)
        ∙ w3.kept a n (omega arith)
        ∙ w2.kept a n (omega arith)
        ∙ w1.kept a n (omega arith)
        ∙ ready.same a n (omega (arith, h.room))
      where
        open t use {ready, w1, w2, w3, w4, w5}

    Steps-hold :
        {m0 m1 m2 m3 m4 m5 : Mem}
        → Steps k v s m0 m1 m2 m3 m4 m5
        → Holds api (after k v s m5) (es ++ ((k, v) ∷ []))
    Steps-hold {m5} t = record {
      ready = h.ready;
      counted = omega (arith, h.counted, length-append es ((k, v) ∷ []));
      next = omega (arith, h.next, log_size-append es k v);
      entries =
          Entries-append (byte m5) 12 s.next_free es k v h.next
            (Entries-keep (byte s.mem) (byte m5) 12 es
              (λ a n p q. Steps-keep t a n p (omega (arith, h.next))) h.entries)
            (Steps-IsEntry t);
      head =
          ap (λ n. bytes (byte m5) 0 n)
            (sym (length-header (s.count + 1) (s.next_free + entry_len k v)))
          ∙ t.w5.stored;
      room = omega (arith, pages_kept);
      small = omega (arith, pages_kept);
    }
      where
        pages_kept : (s.next_free + entry_len k v ≤ pages m5 * 65536) × (pages m5 < 65536)
        pages_kept = omega (
          arith, t.ready.room, t.ready.small, t.w1.same_pages, t.w2.same_pages, t.w3.same_pages,
          t.w4.same_pages, t.w5.same_pages,
        )

    -- Appending succeeds, and the storage then holds the log with the entry at its end.
    pub append_entry-Holds :
        GrowsTo32 api
        → (s' : Kv Mem) × (append_entry api k v s ≡ some s') × Holds api s' (es ++ ((k, v) ∷ []))
    append_entry-Holds grows =
        write_then api o (write_u32 (length k)) m0
          (omega (arith, r.room, length-write_u32 (length k)))
          λ m1 w1. write_then api (o + 4) k m1 (omega (arith, r.room, w1.same_pages)) λ m2 w2.
            write_then api (o + 4 + length k) (write_u32 (length v)) m2
              (omega (arith, r.room, w1.same_pages, w2.same_pages, length-write_u32 (length v)))
              λ m3 w3.
                write_then api (o + 4 + length k + 4) v m3
                  (omega (arith, r.room, w1.same_pages, w2.same_pages, w3.same_pages))
                  λ m4 w4.
                    write_then api 0 (header (s.count + 1) (o + entry_len k v)) m4
                      (omega (
                        arith,
                        r.room,
                        w1.same_pages,
                        w2.same_pages,
                        w3.same_pages,
                        w4.same_pages,
                        h.next,
                        length-header (s.count + 1) (o + entry_len k v),
                      ))
                      λ m5 w5.
                        result (record { ready = r; w1 = w1; w2 = w2; w3 = w3; w4 = w4; w5 = w5 })
      where
        o : ℕ
        o = s.next_free

        m0 : Mem
        m0 = ensure_capacity api (o + entry_len k v) s.mem

        r : HasRoom api (o + entry_len k v) s.mem m0
        r = ensure_capacity-HasRoom _ s.mem grows fits h.small

        result :
            {m1 m2 m3 m4 m5 : Mem}
            → Steps k v s m0 m1 m2 m3 m4 m5
            → (s' : Kv Mem) × (append_entry api k v s ≡ some s')
              × Holds api s' (es ++ ((k, v) ∷ []))
        result {m5} t = (after k v s m5, Steps-done t, Steps-hold t)
