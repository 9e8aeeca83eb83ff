-- ===== src/StableKv/Put.antt =====
-- `stkv_put` does what `log_put` says: in place for a value of the old size, at the end otherwise.
use mathlib.Core.Logic.{if_pos, if_neg}
use mathlib.Core.Path.{subst, subst₂}
use idris2_ouc.Base.{
  ℕ, ◌+◌, ◌*◌, ◌≤◌, ◌≡◌, ◌≢◌, ◌∙◌, sym, refl, ap, List, [], ◌∷◌, ◌++◌, none, some, length, arith,
  ◌⊎◌, inl, inr, ℕ_discrete, ==_iff, ==_ne,
}
use idris2_ouc.Base.Split.{take_all}
use idris2_ouc.Word.Bytes.{write_u32}
use idris2_ouc.Stable.{StableApi}
use idris2_ouc.Stable.Span.{bytes}
use idris2_ouc.Stable.Writes.{Written, write_then}
use idris2_ouc.StableKv.{Kv, put, append_entry}
use idris2_ouc.StableKv.Log.{Log, key_dec, entry_len, log_size, lookup, overwrite, log_put}
use idris2_ouc.StableKv.Layout.{IsEntry, IsEntry-keep, Entries, Entries-keep, Holds}
use idris2_ouc.StableKv.Search.{locate, locate-lookup, read_at, read_len}
use idris2_ouc.StableKv.Refine.{init-ready, find-ready}
use idris2_ouc.StableKv.Append.{append_entry-Holds}
use idris2_ouc.Stable.Growth.{GrowsTo32}

locate-above : (k : List ℕ) (o : ℕ) (es : Log) (p : ℕ) → locate k o es ≡ some p → o ≤ p
unfolding locate
locate-above k o [] p e = cc
locate-above k o ((j, v) ∷ es) p e = ground (arith, locate-above k (o + entry_len j v) es p)

-- A memory that differs from `f` only in the value at `p`, where it has `v`.
record Rewritten (f g : ℕ → ℕ) (k v : List ℕ) (p : ℕ) : Type 0 where
  value : bytes g (p + 4 + length k + 4) (length v) ≡ v
  rest :
      (a n : ℕ)
      → ((a + n ≤ p + 4 + length k + 4) ⊎ (p + 4 + length k + 4 + length v ≤ a))
      → bytes g a n ≡ bytes f a n

IsEntry-Rewritten :
    (f g : ℕ → ℕ) (k v w : List ℕ) (p : ℕ)
    → Rewritten f g k v p
    → length w ≡ length v
    → IsEntry f p k w
    → IsEntry g p k v
IsEntry-Rewritten f g k v w p r same e = record {
  key_len = r.rest p 4 (omega arith) ∙ e.key_len;
  key = r.rest (p + 4) (length k) (omega arith) ∙ e.key;
  val_len = r.rest (p + 4 + length k) 4 (omega arith) ∙ e.val_len ∙ ap write_u32 same;
  val = r.value;
}

some_inj {ℓ} : {A : Type ℓ} (a b : A) → some a ≡ some b → a ≡ b
some_inj a b e = cc

overwrite_head :
    (f g : ℕ → ℕ) (j v x : List ℕ) (o : ℕ) (es : Log)
    → length x ≡ length v
    → Rewritten f g j v o
    → Entries f o ((j, x) ∷ es)
    → Entries g o ((j, v) ∷ es)
      × (log_size ((j, v) ∷ es) ≡ log_size ((j, x) ∷ es))
      × (length ((j, v) ∷ es) ≡ length ((j, x) ∷ es))
overwrite_head f g j v x o es same r (e, h) =
    let tail : Entries g (o + entry_len j x) es =
      Entries-keep f g (o + entry_len j x) es (λ a n p q. r.rest a n (omega arith)) h in
    (
      (
        IsEntry-Rewritten f g j v x o r same e,
        subst (λ (t : ℕ). Entries g t es) {x = o + entry_len j x} {y = o + entry_len j v}
            (omega arith) tail,
      ),
      omega arith,
      refl,
    )

overwrite-Entries :
    (f g : ℕ → ℕ) (k v w : List ℕ) (o p : ℕ) (es : Log)
    → locate k o es ≡ some p
    → lookup k es ≡ some w
    → length w ≡ length v
    → Rewritten f g k v p
    → Entries f o es
    → Entries g o (overwrite k v es)
      × (log_size (overwrite k v es) ≡ log_size es)
      × (length (overwrite k v es) ≡ length es)
unfolding locate lookup overwrite
overwrite-Entries f g k v w o p [] at l same r h = cc
overwrite-Entries f g k v w o p ((j, x) ∷ es) at l same r (e, h) = elim (key_dec k j) [
  | yes q ↦
      let pe : o ≡ p = some_inj o p (sym (if_pos (key_dec k j) q _ _) ∙ at) in
      let xe : x ≡ w = some_inj x w (sym (if_pos (key_dec k j) q _ _) ∙ l) in
      rw (if_pos (key_dec k j) q) (
        overwrite_head f g j v x o es (ap length xe ∙ same)
          (subst₂ (λ a b. Rewritten f g a v b) q (sym pe) r) (e, h))
  | no q ↦
      let at' : locate k (o + entry_len j x) es ≡ some p = sym (if_neg (key_dec k j) q _ _) ∙ at in
      let (t, size, len) =
        overwrite-Entries f g k v w (o + entry_len j x) p es at'
          (sym (if_neg (key_dec k j) q _ _) ∙ l) same r h in
      rw (if_neg (key_dec k j) q) (
        (
          IsEntry-keep f g o j x
              (λ a n _ hi. r.rest a n (omega (arith, locate-above k (o + entry_len j x) es p at')))
              e,
          t,
        ),
        omega (arith, size),
        omega (arith, len),
      )
]

module _ (api : StableApi) where
  open api use {Mem, pages, byte, read, write}

  -- The part of `stkv_put` that finds a value of the same size.
  module _ (k v w : List ℕ) (s : Kv Mem) (es : Log) (p : ℕ) (h : Holds api s es)
      (hk : length k ≤ 256) (at : locate k 12 es ≡ some p) (l : lookup k es ≡ some w)
      (same : length w ≡ length v) (e : IsEntry (byte s.mem) p k w) (above : 12 ≤ p)
      (inside : p + entry_len k w ≤ s.next_free) where
    overwritten_Holds :
        {m' : Mem}
        → Written api (p + 4 + length k + 4) v s.mem m'
        → Holds api (record s { mem = m' }) (overwrite k v es)
    overwritten_Holds {m'} t =
        let (en, size, len) =
          overwrite-Entries (byte s.mem) (byte m') k v w 12 p es at l same
            (record { value = t.stored; rest = t.kept }) h.entries in
        record {
          ready = h.ready;
          counted = omega (arith, len, h.counted);
          next = omega (arith, size, h.next);
          entries = en;
          head = t.kept 0 12 (omega arith) ∙ h.head;
          room = omega (arith, h.room, t.same_pages);
          small = omega (arith, h.small, t.same_pages);
        }

    put_in_place :
        {m' : Mem}
        → Written api (p + 4 + length k + 4) v s.mem m'
        → put api k v s ≡ some (0, record s { mem = m' })
    unfolding put
    put_in_place t = ground (
      arith,
      init-ready api s es h,
      find-ready api k s es hk h,
      at,
      read_at api (p + 4 + length k) 4 s.mem _ (omega (arith, h.room)) h.small e.val_len,
      read_len w (omega (arith, h.room, h.small)),
      take_all (length v) v,
      t.done,
      h.room,
      h.small,
    )

    put_same_size : (s' : Kv Mem) × (put api k v s ≡ some (0, s')) × Holds api s' (overwrite k v es)
    put_same_size =
        write_then api (p + 4 + length k + 4) v s.mem (omega (arith, h.room))
          λ m' t. (record s { mem = m' }, put_in_place t, overwritten_Holds t)

  -- The part of `stkv_put` that appends: no entry of the key, or one with a value of another size.
  put_at_end :
      (k v : List ℕ) (s s' : Kv Mem) (es : Log)
      → length k ≤ 256
      → Holds api s es
      → s.next_free + entry_len k v ≤ 65535 * 65536
      → append_entry api k v s ≡ some s'
      → ((locate k 12 es ≡ none)
          ⊎ ((p : ℕ) × (locate k 12 es ≡ some p)
              × (w : List ℕ) × (length w ≢ length v)
              × IsEntry (byte s.mem) p k w
              × (p + entry_len k w ≤ s.next_free)))
      → put api k v s ≡ some (0, s')
  unfolding put
  put_at_end k v s s' es hk h fits e (inl no_entry) =
      ground (arith, init-ready api s es h, find-ready api k s es hk h, no_entry, e)
  put_at_end k v s s' es hk h fits e (inr (p, at, w, other, entry, inside)) = ground (
    arith,
    init-ready api s es h,
    find-ready api k s es hk h,
    at,
    read_at api (p + 4 + length k) 4 s.mem _ (omega (arith, h.room)) h.small entry.val_len,
    read_len w (omega (arith, h.room, h.small)),
    e,
    h.room,
    h.small,
  )

  -- On a storage that holds a log, `stkv_put` returns 0 and leaves the log that `log_put` describes,
  -- if the key has at most 256 bytes, an appended entry would end below the last page that 32-bit
  -- addresses reach, and the system grants that memory.
  pub put-log_put :
      (k v : List ℕ) (s : Kv Mem) (es : Log)
      → GrowsTo32 api
      → length k ≤ 256
      → s.next_free + entry_len k v ≤ 65535 * 65536
      → Holds api s es
      → (s' : Kv Mem) × (put api k v s ≡ some (0, s')) × Holds api s' (log_put k v es)
  unfolding log_put
  put-log_put k v s es grows hk fits h = elim (locate-lookup (byte s.mem) k 12 es h.entries) [
    | inl (a, b) ↦ rw (b, log_put) (at_end (inl a))
    | inr (p, a, t) ↦ elim (ℕ_discrete (length t.val) (length v)) [
      | yes same ↦
          rw (t.found, log_put, (==_iff _ _).1 same)
            (put_same_size k v t.val s es p h hk a t.found same t.entry t.above
              (omega (arith, t.inside, h.next)))
      | no other ↦
          rw (t.found, log_put, ==_ne _ _ other)
            (at_end (inr (p, a, t.val, other, t.entry, omega (arith, t.inside, h.next))))
    ]
  ]
    where
      at_end :
          ((locate k 12 es ≡ none)
            ⊎ ((p : ℕ) × (locate k 12 es ≡ some p)
                × (w : List ℕ) × (length w ≢ length v)
                × IsEntry (byte s.mem) p k w
                × (p + entry_len k w ≤ s.next_free)))
          → (s' : Kv Mem) × (put api k v s ≡ some (0, s')) × Holds api s' (es ++ ((k, v) ∷ []))
      at_end why =
          let (s', e, held) = append_entry-Holds api k v s es h fits grows in
          (s', put_at_end k v s s' es hk h fits e why, held)
