-- ===== src/StableKv/Promise.antt =====
-- What a client of the storage may rely on over several calls.
use mathlib.Core.Logic.{if_pos, if_neg}
use idris2_ouc.Base.{
  ℕ, ◌+◌, ◌*◌, ◌≤◌, ◌<◌, ◌^◌, ◌≡◌, ◌≢◌, ◌∙◌, refl, ap, List, [], ◌∷◌, ◌++◌, true, false, Option,
  none, some, length, arith, ◌==◌, if◌then◌else◌, drop,
}
use idris2_ouc.Word.Bytes.{write_u32, read_u32, read_u32-write_u32, read_u32-write_u32_end}
use idris2_ouc.Stable.{StableApi}
use idris2_ouc.Stable.Span.{bytes}
use idris2_ouc.Stable.Writes.{write_then}
use idris2_ouc.StableKv.{
  Kv, get, put, clear, count_entries, init_if_needed, init_fresh, flush_header, header,
  empty_header, mem_eq, magic,
}
use idris2_ouc.StableKv.Log.{Log, key_dec, entry_len, lookup, overwrite, log_put}
use idris2_ouc.StableKv.Layout.{Holds, length-le-log_size}
use idris2_ouc.StableKv.Refine.{reply, get-lookup, init-ready}
use idris2_ouc.Stable.Growth.{GrowsTo32}
use idris2_ouc.StableKv.Put.{put-log_put}

-- The entry that counts for `k` after a `put` of `v`: an old one of another size stays in front.
unfoldable pub winner : List ℕ → Option (List ℕ) → List ℕ
winner v none = v
winner v (some w) = if length w == length v then v else w

lookup-append_none :
    (k v : List ℕ) (es : Log) → lookup k es ≡ none → lookup k (es ++ ((k, v) ∷ [])) ≡ some v
unfolding lookup
lookup-append_none k v [] e = if_pos (key_dec k k) refl _ _
lookup-append_none k v ((j, x) ∷ es) e = ground (arith, lookup-append_none k v es)

lookup-append_some :
    (k j v w : List ℕ) (es : Log) → lookup k es ≡ some w → lookup k (es ++ ((j, v) ∷ [])) ≡ some w
unfolding lookup
lookup-append_some k j v w [] e = cc
lookup-append_some k j v w ((i, x) ∷ es) e = ground (arith, lookup-append_some k j v w es)

lookup-append_ne :
    (k j v : List ℕ) (es : Log) → k ≢ j → lookup k (es ++ ((j, v) ∷ [])) ≡ lookup k es
unfolding lookup
lookup-append_ne k j v [] ne = if_neg (key_dec k j) ne _ _
lookup-append_ne k j v ((i, x) ∷ es) ne = ground (arith, lookup-append_ne k j v es ne)

lookup-overwrite_self :
    (k v w : List ℕ) (es : Log) → lookup k es ≡ some w → lookup k (overwrite k v es) ≡ some v
unfolding lookup overwrite
lookup-overwrite_self k v w [] e = cc
lookup-overwrite_self k v w ((j, x) ∷ es) e = ground (arith, lookup-overwrite_self k v w es)

lookup-overwrite_ne :
    (k j v : List ℕ) (es : Log) → k ≢ j → lookup k (overwrite j v es) ≡ lookup k es
unfolding lookup overwrite
lookup-overwrite_ne k j v [] ne = refl
lookup-overwrite_ne k j v ((i, x) ∷ es) ne = ground (arith, lookup-overwrite_ne k j v es ne)

lookup-log_put :
    (k v : List ℕ) (es : Log) (o : Option (List ℕ))
    → lookup k es ≡ o
    → lookup k (log_put k v es) ≡ some (winner v o)
unfolding log_put winner
lookup-log_put k v es none e = ground (arith, e, lookup-append_none k v es e)
lookup-log_put k v es (some w) e =
    ground (arith, e, lookup-append_some k k v w es e, lookup-overwrite_self k v w es e)

lookup-log_put_ne : (k j v : List ℕ) (es : Log) → k ≢ j → lookup k (log_put j v es) ≡ lookup k es
unfolding log_put
lookup-log_put_ne k j v es ne =
    ground (arith, lookup-append_ne k j v es ne, lookup-overwrite_ne k j v es ne)

module _ (api : StableApi) where
  open api use {Mem, pages, byte, grow, read, read_in, write}

  -- On a storage that holds a log, after `stkv_put` of `v` under `k`, `stkv_get` of `k` answers `v` if the key was new or its value
  -- had the size of `v`, and the OLD value otherwise. (A key of at most 256 bytes, an entry that fits
  -- below the last 32-bit page, a buffer below 2^32 bytes, a system that grants memory.)
  pub put-get :
      (k v : List ℕ) (max : ℕ) (s : Kv Mem) (es : Log)
      → GrowsTo32 api
      → length k ≤ 256
      → max < 2 ^ 32
      → s.next_free + entry_len k v ≤ 65535 * 65536
      → Holds api s es
      → (s' : Kv Mem) × (put api k v s ≡ some (0, s'))
        × (get api k max s' ≡ some (reply max (some (winner v (lookup k es))), s'))
  put-get k v max s es grows hk hm fits h =
      let (s', e, held) = put-log_put api k v s es grows hk fits h in
      (
        s',
        e,
        get-lookup api k max s' (log_put k v es) hk hm held
            ∙ ap (λ r. some (reply max r, s')) (lookup-log_put k v es (lookup k es) refl),
      )

  -- `stkv_put` under another key succeeds and does not change what `stkv_get` of `k` answers. (Keys of
  -- at most 256 bytes, an entry that fits below the last 32-bit page, a buffer below 2^32 bytes, a system
  -- that grants memory.)
  pub put-get_other :
      (k j v : List ℕ) (max : ℕ) (s : Kv Mem) (es : Log)
      → GrowsTo32 api
      → k ≢ j
      → length k ≤ 256
      → length j ≤ 256
      → max < 2 ^ 32
      → s.next_free + entry_len j v ≤ 65535 * 65536
      → Holds api s es
      → (s' : Kv Mem) × (put api j v s ≡ some (0, s'))
        × (get api k max s' ≡ some (reply max (lookup k es), s'))
  put-get_other k j v max s es grows ne hk hj hm fits h =
      let (s', e, held) = put-log_put api j v s es grows hj fits h in
      (
        s',
        e,
        get-lookup api k max s' (log_put j v es) hk hm held
            ∙ ap (λ r. some (reply max r, s')) (lookup-log_put_ne k j v es ne),
      )

  init_fresh-Holds :
      (m : Mem)
      → 1 ≤ pages m
      → pages m < 65536
      → (s' : Kv Mem) × (init_fresh api m ≡ some s') × Holds api s' []
  unfolding empty_header init_fresh header write_u32
  init_fresh-Holds m has small = write_then api 0 empty_header m (omega arith) λ m' w. (
    record { count = 0; next_free = 12; initialized = true; mem = m' },
    ground (arith, w.done),
    record {
      ready = refl;
      counted = refl;
      next = refl;
      entries = tt;
      head = w.stored;
      room = omega (arith, w.same_pages);
      small = omega (arith, w.same_pages);
    },
  )

  -- On a memory with no page, and a system that grants one, the storage starts with the empty log.
  pub init-first :
      (s : Kv Mem)
      → GrowsTo32 api
      → s.initialized ≡ false
      → pages s.mem ≡ 0
      → (s' : Kv Mem) × (init_if_needed api s ≡ some s') × Holds api s' []
  init-first s grows off none_yet =
      let p : pages (grow 1 s.mem) ≡ pages s.mem + 1 = grows 1 s.mem (omega arith) in
      let (s', e, held) = init_fresh-Holds (grow 1 s.mem) (omega arith) (omega arith) in
      (s', unfold init_if_needed in ground (arith, e), held)

  -- A memory of 1 to 65535 pages whose first four bytes are not "STKV" is taken over: whatever it held,
  -- the storage starts with the empty log.
  pub init-foreign :
      (s : Kv Mem)
      → s.initialized ≡ false
      → 1 ≤ pages s.mem
      → pages s.mem < 65536
      → mem_eq 4 (bytes (byte s.mem) 0 12) magic ≡ false
      → (s' : Kv Mem) × (init_if_needed api s ≡ some s') × Holds api s' []
  init-foreign s off has small other =
      let (s', e, held) = init_fresh-Holds s.mem has small in
      (
        s',
        unfold init_if_needed in ground (arith, e, other, read_in 0 12 s.mem (omega arith)),
        held,
      )

  init_reads :
      (c n : ℕ)
      → c < 2 ^ 32
      → n < 2 ^ 32
      → (mem_eq 4 (header c n) magic ≡ true)
        × (read_u32 (drop 4 (header c n)) ≡ c)
        × (read_u32 (drop 8 (header c n)) ≡ n)
  unfolding header mem_eq write_u32
  init_reads c n hc hn = (refl, read_u32-write_u32 c (write_u32 n) hc, read_u32-write_u32_end n hn)

  -- After an upgrade the variables of the C code are as at the start and the stable memory is kept.
  -- The next call reads the header, and the storage holds the same log again. (The log ends below 2^32.)
  pub init-recovers :
      (s t : Kv Mem) (es : Log)
      → Holds api s es
      → s.next_free < 2 ^ 32
      → t.initialized ≡ false
      → t.mem ≡ s.mem
      → (t' : Kv Mem) × (init_if_needed api t ≡ some t') × Holds api t' es
  init-recovers s t es h small off kept =
      let (is_magic, count, next) =
        init_reads s.count s.next_free (omega (arith, h.counted, h.next, length-le-log_size es))
          small in
      (
        record { count = s.count; next_free = s.next_free; initialized = true; mem = t.mem },
        unfold init_if_needed in
            ground (
              arith,
              off,
              kept,
              read_in 0 12 s.mem (omega (arith, h.room, h.next)),
              h.head,
              is_magic,
              count,
              next,
              h.room,
              h.next,
            ),
        rw kept (record {
          ready = refl;
          counted = h.counted;
          next = h.next;
          entries = h.entries;
          head = h.head;
          room = h.room;
          small = h.small;
        }),
      )

  -- `stkv_clear` on a storage that holds a log succeeds and leaves the empty log, in memory and in the
  -- header.
  pub clear-Holds :
      (s : Kv Mem) (es : Log)
      → Holds api s es
      → (s' : Kv Mem) × (clear api s ≡ some s') × Holds api s' []
  unfolding clear flush_header header write_u32
  clear-Holds s es h = write_then api 0 (header 0 12) s.mem (omega (arith, h.room, h.next)) λ m' w.
      (
        record { count = 0; next_free = 12; initialized = s.initialized; mem = m' },
        ground (arith, w.done),
        record {
          ready = h.ready;
          counted = refl;
          next = refl;
          entries = tt;
          head = w.stored;
          room = omega (arith, w.same_pages, h.room, h.next);
          small = omega (arith, w.same_pages, h.small);
        },
      )

  -- `stkv_count_entries` on a storage that holds a log answers its length and changes nothing.
  pub count_entries-length :
      (s : Kv Mem) (es : Log) → Holds api s es → count_entries api s ≡ some (length es, s)
  unfolding count_entries
  count_entries-length s es h = ground (arith, init-ready api s es h, h.counted)
