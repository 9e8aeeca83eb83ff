-- ===== src/StableKv/Layout.antt =====
-- How a log lies in a memory.
use idris2_ouc.Base.{ℕ, ◌+◌, ◌*◌, ◌≤◌, ◌<◌, ◌≡◌, ◌∙◌, List, [], ◌∷◌, ◌++◌, true, length, arith}
use mathlib.Core.Path.{subst}
use idris2_ouc.Word.Bytes.{write_u32}
use idris2_ouc.Stable.{StableApi}
use idris2_ouc.Stable.Span.{bytes}
use idris2_ouc.StableKv.{Kv, header}
use idris2_ouc.StableKv.Log.{Log, entry_len, log_size}

-- The entry `[key_len:4][key][val_len:4][val]` at `o`.
pub record IsEntry (f : ℕ → ℕ) (o : ℕ) (k v : List ℕ) : Type 0 where
  pub key_len : bytes f o 4 ≡ write_u32 (length k)
  pub key : bytes f (o + 4) (length k) ≡ k
  pub val_len : bytes f (o + 4 + length k) 4 ≡ write_u32 (length v)
  pub val : bytes f (o + 4 + length k + 4) (length v) ≡ v

-- The entries of a log, one after the other from `o` on.
abbrev pub Entries : (ℕ → ℕ) → ℕ → Log → Type 0
Entries f o [] = Unit
Entries f o ((k, v) ∷ es) = IsEntry f o k v × Entries f (o + entry_len k v) es

-- `g` agrees with `f` on every run between `lo` and `hi`.
abbrev pub Agrees : (ℕ → ℕ) → (ℕ → ℕ) → ℕ → ℕ → Type 0
Agrees f g lo hi = (a n : ℕ) → lo ≤ a → a + n ≤ hi → bytes g a n ≡ bytes f a n

pub IsEntry-keep :
    (f g : ℕ → ℕ) (o : ℕ) (k v : List ℕ)
    → Agrees f g o (o + entry_len k v)
    → IsEntry f o k v
    → IsEntry g o k v
IsEntry-keep f g o k v same e = record {
  key_len = same o 4 (omega arith) (omega arith) ∙ e.key_len;
  key = same (o + 4) (length k) (omega arith) (omega arith) ∙ e.key;
  val_len = same (o + 4 + length k) 4 (omega arith) (omega arith) ∙ e.val_len;
  val = same (o + 4 + length k + 4) (length v) (omega arith) (omega arith) ∙ e.val;
}

pub Entries-keep :
    (f g : ℕ → ℕ) (o : ℕ) (es : Log)
    → Agrees f g o (o + log_size es)
    → Entries f o es
    → Entries g o es
Entries-keep f g o [] same h = tt
Entries-keep f g o ((k, v) ∷ es) same (e, h) = (
  IsEntry-keep f g o k v (λ a n p q. same a n p (omega arith)) e,
  Entries-keep f g (o + entry_len k v) es (λ a n p q. same a n (omega arith) (omega arith)) h,
)

pub Entries-append :
    (f : ℕ → ℕ) (o p : ℕ) (es : Log) (k v : List ℕ)
    → p ≡ o + log_size es
    → Entries f o es
    → IsEntry f p k v
    → Entries f o (es ++ ((k, v) ∷ []))
Entries-append f o p [] k v at h e =
    (subst (λ (q : ℕ). IsEntry f q k v) {x = p} {y = o} (omega arith) e, tt)
Entries-append f o p ((j, w) ∷ es) k v at (e', h) e =
    (e', Entries-append f (o + entry_len j w) p es k v (omega arith) h e)

pub log_size-append :
    (es : Log) (k v : List ℕ) → log_size (es ++ ((k, v) ∷ [])) ≡ log_size es + entry_len k v
log_size-append [] k v = omega arith
log_size-append ((j, w) ∷ es) k v = omega (arith, log_size-append es k v)

pub length-le-log_size : (es : Log) → length es ≤ log_size es
length-le-log_size [] = omega arith
length-le-log_size ((k, v) ∷ es) = omega (arith, length-le-log_size es)

module _ (api : StableApi) where
  open api use {Mem, pages, byte}

  -- The running storage `s` holds the log `es`: in memory, and in the header that survives.
  pub record Holds (s : Kv Mem) (es : Log) : Type 0 where
    pub ready : s.initialized ≡ true
    pub counted : s.count ≡ length es
    pub next : s.next_free ≡ 12 + log_size es
    pub entries : Entries (byte s.mem) 12 es
    pub head : bytes (byte s.mem) 0 12 ≡ header s.count s.next_free
    pub room : s.next_free ≤ pages s.mem * 65536
    pub small : pages s.mem < 65536
