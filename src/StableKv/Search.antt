-- ===== src/StableKv/Search.antt =====
-- The search loop finds the first entry of a key.
use mathlib.Core.Logic.{ite, if_pos, if_neg}
use idris2_ouc.Base.{
  ℕ, zero, suc, ◌+◌, ◌*◌, ◌≤◌, ◌<◌, ◌^◌, ◌≡◌, ◌≢◌, ◌∙◌, refl, ap, List, [], ◌∷◌, Bool, true, false,
  Option, none, some, length, arith, ◌⊎◌, inl, inr,
}
use idris2_ouc.Word.{u32}
use idris2_ouc.Word.Bytes.{write_u32, read_u32, read_u32-write_u32_end}
use idris2_ouc.Stable.{StableApi}
use idris2_ouc.Stable.Span.{bytes}
use idris2_ouc.StableKv.{mem_eq, find_entry}
use idris2_ouc.StableKv.Log.{Log, key_dec, entry_len, log_size, lookup}
use idris2_ouc.StableKv.Layout.{IsEntry, Entries}

-- `mem_eq` decides equality of buffers of its length.
pub mem_eq-true : (a b : List ℕ) → length a ≡ length b → mem_eq (length a) a b ≡ true → a ≡ b
unfolding mem_eq
mem_eq-true [] [] h e = refl
mem_eq-true [] (y ∷ b) h e = absurd (omega arith)
mem_eq-true (x ∷ a) [] h e = absurd (omega arith)
mem_eq-true (x ∷ a) (y ∷ b) h e = ground (arith, mem_eq-true a b (omega arith))

pub mem_eq_self : (a : List ℕ) → mem_eq (length a) a a ≡ true
unfolding mem_eq
mem_eq_self [] = refl
mem_eq_self (x ∷ a) = ground (arith, mem_eq_self a)

pub mem_eq-ne : (a b : List ℕ) → length a ≡ length b → a ≢ b → mem_eq (length a) a b ≡ false
mem_eq-ne a b h ne = elim (mem_eq_cases (mem_eq (length a) a b)) [
  | inl e ↦ absurd (ne (mem_eq-true a b h e))
  | inr e ↦ e
]
  where
    mem_eq_cases : (t : Bool) → (t ≡ true) ⊎ (t ≡ false)
    mem_eq_cases true = inl refl
    mem_eq_cases false = inr refl

-- Where the first entry of a key lies in a log that begins at `o`.
unfoldable pub locate : List ℕ → ℕ → Log → Option ℕ
locate k o [] = none
locate k o ((j, v) ∷ es) = ite (key_dec k j) (some o) (locate k (o + entry_len j v) es)

pub read_len : (l : List ℕ) → length l < 2 ^ 32 → read_u32 (write_u32 (length l)) ≡ length l
read_len l h = read_u32-write_u32_end (length l) h

module _ (api : StableApi) where
  open api use {Mem, pages, byte, read, read_in}

  pub read_at :
      (o n : ℕ) (m : Mem) (bs : List ℕ)
      → o + n ≤ pages m * 65536
      → pages m < 65536
      → bytes (byte m) o n ≡ bs
      → read (u32 o) n m ≡ some bs
  read_at o n m bs fits small e =
      ap (λ x. read x n m) {x = u32 o} {y = o} (omega arith) ∙ read_in o n m fits ∙ ap some e

  -- One round of the loop at an entry `(j, v)`.
  find_entry_round :
      (k j v : List ℕ) (nf n o : ℕ) (m : Mem)
      → length k ≤ 256
      → IsEntry (byte m) o j v
      → o + entry_len j v ≤ nf
      → nf ≤ pages m * 65536
      → pages m < 65536
      → find_entry api k nf (suc n) o m
        ≡ ite (key_dec k j) (some (some o)) (find_entry api k nf n (o + entry_len j v) m)
  unfolding find_entry
  find_entry_round k j v nf n o m hk e inside room small = elim (key_dec k j) [
    | yes p ↦ rw (if_pos (key_dec k j) p) (
        ground (arith, key_len, stored_len, stored_key, same, ap length p, rw p at (mem_eq_self k)))
    | no p ↦ rw (if_neg (key_dec k j) p) (
        ground (
          arith,
          key_len,
          stored_len,
          stored_key,
          stored_val_len,
          val_len_read,
          on,
          same,
          mem_eq-ne k j,
        ))
  ]
    where
      same : u32 (length k) ≡ length k
      same = omega arith

      stored_len : read o 4 m ≡ some (write_u32 (length j))
      stored_len = read_in o 4 m (omega arith) ∙ ap some e.key_len

      key_len : read_u32 (write_u32 (length j)) ≡ length j
      key_len = read_len j (omega arith)

      stored_key : read (u32 (o + 4)) (length j) m ≡ some j
      stored_key = read_at (o + 4) (length j) m j (omega arith) small e.key

      stored_val_len : read (u32 (o + 4 + length j)) 4 m ≡ some (write_u32 (length v))
      stored_val_len = read_at (o + 4 + length j) 4 m _ (omega arith) small e.val_len

      val_len_read : read_u32 (write_u32 (length v)) ≡ length v
      val_len_read = read_len v (omega arith)

      on : u32 (o + 4 + length j + 4 + length v) ≡ o + entry_len j v
      on = omega arith

  -- On a log in memory the loop returns where the first entry of the key lies.
  pub find_entry-locate :
      (k : List ℕ) (nf n o : ℕ) (m : Mem) (es : Log)
      → length k ≤ 256
      → n ≡ length es
      → o + log_size es ≤ nf
      → nf ≤ pages m * 65536
      → pages m < 65536
      → Entries (byte m) o es
      → find_entry api k nf n o m ≡ some (locate k o es)
  unfolding locate
  find_entry-locate k nf zero o m [] hk hn inside room small h = unfold find_entry in refl
  find_entry-locate k nf (suc n) o m [] hk hn inside room small h = absurd (omega arith)
  find_entry-locate k nf zero o m ((j, v) ∷ es) hk hn inside room small h = absurd (omega arith)
  find_entry-locate k nf (suc n) o m ((j, v) ∷ es) hk hn inside room small (e, h) = ground (
    arith,
    find_entry_round k j v nf n o m hk e,
    find_entry-locate k nf n (o + entry_len j v) m es hk (omega arith) (omega arith) room small h,
  )

-- What the search tells: the value that lies there is the one that `lookup` finds.
pub record Located (f : ℕ → ℕ) (k : List ℕ) (o : ℕ) (es : Log) (p : ℕ) : Type 0 where
  pub val : List ℕ
  pub found : lookup k es ≡ some val
  pub entry : IsEntry f p k val
  pub above : o ≤ p
  pub inside : p + entry_len k val ≤ o + log_size es

pub locate-lookup :
    (f : ℕ → ℕ) (k : List ℕ) (o : ℕ) (es : Log)
    → Entries f o es
    → ((locate k o es ≡ none) × (lookup k es ≡ none))
      ⊎ ((p : ℕ) × (locate k o es ≡ some p) × Located f k o es p)
unfolding locate lookup
locate-lookup f k o [] h = inl (refl, refl)
locate-lookup f k o ((j, v) ∷ es) (e, h) = elim (key_dec k j) [
  | yes q ↦ inr (
    o,
    if_pos (key_dec k j) q _ _,
    record {
      val = v;
      found = if_pos (key_dec k j) q _ _;
      entry = rw q e;
      above = omega arith;
      inside = rw q (omega arith);
    },
  )
  | no q ↦ elim (locate-lookup f k (o + entry_len j v) es h) [
    | inl (a, b) ↦ inl (if_neg (key_dec k j) q _ _ ∙ a, if_neg (key_dec k j) q _ _ ∙ b)
    | inr (p, a, l) ↦ inr (
      p,
      if_neg (key_dec k j) q _ _ ∙ a,
      record {
        val = l.val;
        found = if_neg (key_dec k j) q _ _ ∙ l.found;
        entry = l.entry;
        above = omega (arith, l.above);
        inside = omega (arith, l.inside);
      },
    )
  ]
]
