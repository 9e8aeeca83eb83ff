-- ===== src/StableKv/Refine.antt =====
-- `stkv_get` and `stkv_put` do what `lookup` and `log_put` say.
use idris2_ouc.Base.{
  ℕ, ◌+◌, ◌*◌, ◌≤◌, ◌<◌, ◌^◌, ◌≡◌, ◌∙◌, refl, ap, List, Option, none, some, length, arith, inl, inr,
  ltb, if◌then◌else◌, take,
}
use idris2_ouc.Stable.{StableApi}
use idris2_ouc.Stable.Span.{bytes, take-bytes}
use idris2_ouc.Base.Split.{take_all}
use idris2_ouc.StableKv.{Kv, get, init_if_needed, find_entry, data_start}
use idris2_ouc.StableKv.Log.{Log, entry_len, lookup}
use idris2_ouc.StableKv.Layout.{IsEntry, Holds}
use idris2_ouc.StableKv.Search.{find_entry-locate, locate, locate-lookup, read_at, read_len}

-- What `stkv_get` answers for a looked-up value: its length, and its first `max` bytes.
abbrev pub reply : ℕ → Option (List ℕ) → Option (ℕ × List ℕ)
reply max none = none
reply max (some v) = some (length v, take max v)

module _ (api : StableApi) where
  open api use {Mem, pages, byte, read}

  pub init-ready : (s : Kv Mem) (es : Log) → Holds api s es → init_if_needed api s ≡ some s
  unfolding init_if_needed
  init-ready s es h = rw h.ready refl

  -- The search from the start of the log.
  pub find-ready :
      (k : List ℕ) (s : Kv Mem) (es : Log)
      → length k ≤ 256
      → Holds api s es
      → find_entry api k s.next_free s.count data_start s.mem ≡ some (locate k 12 es)
  find-ready k s es hk h =
      find_entry-locate api k s.next_free s.count 12 s.mem es hk h.counted (omega arith) h.room
        h.small h.entries

  -- The length that `stkv_get` copies, and what lies there.
  copied :
      (f : ℕ → ℕ) (o n : ℕ) (v : List ℕ)
      → bytes f o (length v) ≡ v
      → bytes f o (if ltb (length v) n then length v else n) ≡ take n v
  copied f o n v e = ground (arith, e, take-bytes f o n (length v), ap (take n) e, take_all n v)

  -- The part of `stkv_get` behind a hit.
  get-found :
      (k v : List ℕ) (max p : ℕ) (s : Kv Mem)
      → length k ≤ 256
      → max < 2 ^ 32
      → IsEntry (byte s.mem) p k v
      → p + entry_len k v ≤ pages s.mem * 65536
      → pages s.mem < 65536
      → init_if_needed api s ≡ some s
      → find_entry api k s.next_free s.count data_start s.mem ≡ some (some p)
      → get api k max s ≡ some (some (length v, take max v), s)
  unfolding get
  get-found k v max p s hk hmax e inside small ready hit = ground (
    arith,
    ready,
    hit,
    read_at api (p + 4 + length k) 4 s.mem _ (omega arith) small e.val_len,
    read_len v (omega arith),
    read_at api (p + 4 + length k + 4) (if ltb (length v) max then length v else max) s.mem _
        (ground arith) small (copied (byte s.mem) (p + 4 + length k + 4) max v e.val),
  )

  -- `stkv_get` on a storage that holds a log answers the length and the first bytes of
  -- the first entry with the key, or not found, and changes nothing.
  -- (A key of at most 256 bytes, a buffer below 2^32 bytes.)
  pub get-lookup :
      (k : List ℕ) (max : ℕ) (s : Kv Mem) (es : Log)
      → length k ≤ 256
      → max < 2 ^ 32
      → Holds api s es
      → get api k max s ≡ some (reply max (lookup k es), s)
  get-lookup k max s es hk hmax h = elim (locate-lookup (byte s.mem) k 12 es h.entries) [
    | inl (a, b) ↦ unfold get in ground (arith, init-ready s es h, find-ready k s es hk h, a, b)
    | inr (p, a, l) ↦ rw l.found (
        get-found k l.val max p s hk hmax l.entry (omega (arith, l.inside, h.room, h.next)) h.small
          (init-ready s es h) (find-ready k s es hk h ∙ ap some a))
  ]
