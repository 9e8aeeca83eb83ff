-- ===== src/StableKv/Log.antt =====
-- What the storage promises: a log of entries, where the first entry of a key is the one that counts.
use idris2_ouc.Base.{
  ℕ, ◌+◌, List, [], ◌∷◌, ◌++◌, Option, none, some, ℕ_discrete, ◌==◌, if◌then◌else◌, length,
}
use mathlib.Core.Logic.{ite}

abbrev pub Log : Type 0
Log = List (List ℕ × List ℕ)

unfoldable pub key_dec : Discrete (List ℕ)
key_dec = hlevel ℕ_discrete

-- The bytes of an entry, and of a log.
abbrev pub entry_len : List ℕ → List ℕ → ℕ
entry_len k v = 4 + length k + 4 + length v

abbrev pub log_size : Log → ℕ
log_size [] = 0
log_size ((k, v) ∷ es) = entry_len k v + log_size es

unfoldable pub lookup : List ℕ → Log → Option (List ℕ)
lookup k [] = none
lookup k ((j, v) ∷ es) = ite (key_dec k j) (some v) (lookup k es)

-- Replaces the value of the first entry of a key.
unfoldable pub overwrite : List ℕ → List ℕ → Log → Log
overwrite k v [] = []
overwrite k v ((j, w) ∷ es) = ite (key_dec k j) ((j, v) ∷ es) ((j, w) ∷ overwrite k v es)

-- A value of the old size takes the old one's place; any other is a new entry at the end.
unfoldable pub log_put : List ℕ → List ℕ → Log → Log
log_put k v es = elim (lookup k es) [
  | none ↦ es ++ ((k, v) ∷ [])
  | some w ↦ if length w == length v then overwrite k v es else es ++ ((k, v) ∷ [])
]
