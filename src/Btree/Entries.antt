-- ===== src/Btree/Entries.antt =====
-- What the tree of lib/ic0/stable_btree.c stands for: a list of entries in the order of their keys.
use idris2_ouc.Base.{
  ℕ, ◌≡◌, ◌≢◌, refl, List, [], ◌∷◌, ◌++◌, Option, none, some, Bool, true, false, All, inl, inr,
  arith,
}
use idris2_ouc.Btree.{below, same, above}
use idris2_ouc.Btree.Order.{lex, lex-same, lex_self, Cmp-cases}

-- A key and its value.
abbrev pub Entry : Type 0
Entry = List ℕ × List ℕ

unfoldable pub lookup : List ℕ → List Entry → Option (List ℕ)
lookup key [] = none
lookup key ((k, v) ∷ es) = elim (lex key k) [
  | below ↦ lookup key es
  | same ↦ some v
  | above ↦ lookup key es
]

unfoldable pub insert : List ℕ → List ℕ → List Entry → List Entry
insert key val [] = (key, val) ∷ []
insert key val ((k, v) ∷ es) = elim (lex key k) [
  | below ↦ (key, val) ∷ (k, v) ∷ es
  | same ↦ (key, val) ∷ es
  | above ↦ (k, v) ∷ insert key val es
]

-- The place where the search for a key stops: the entries before it and those from it on.
unfoldable pub before : List ℕ → List Entry → List Entry
before key [] = []
before key ((k, v) ∷ es) = elim (lex key k) [
  | below ↦ []
  | same ↦ []
  | above ↦ (k, v) ∷ before key es
]

unfoldable pub after : List ℕ → List Entry → List Entry
after key [] = []
after key ((k, v) ∷ es) = elim (lex key k) [
  | below ↦ (k, v) ∷ es
  | same ↦ (k, v) ∷ es
  | above ↦ after key es
]

-- Every key of the list comes after `key`.
abbrev pub IsBelow : List ℕ → List Entry → Type 0
IsBelow key = All (λ e. lex key e.0 ≡ below)

abbrev pub IsSorted : List Entry → Type 0
IsSorted [] = Unit
IsSorted ((k, v) ∷ es) = IsBelow k es × IsSorted es

lex_trans : (a b c : List ℕ) → lex a b ≡ below → lex b c ≡ below → lex a c ≡ below
unfolding lex
lex_trans a [] [] h g = cc
lex_trans [] [] (z ∷ c) h g = refl
lex_trans (x ∷ a) [] (z ∷ c) h g = cc
lex_trans [] (y ∷ b) [] h g = cc
lex_trans [] (y ∷ b) (z ∷ c) h g = refl
lex_trans (x ∷ a) (y ∷ b) [] h g = cc
lex_trans (x ∷ a) (y ∷ b) (z ∷ c) h g = ground (arith, lex_trans a b c)

lex_flip : (a b : List ℕ) → lex a b ≡ above → lex b a ≡ below
unfolding lex
lex_flip [] [] h = cc
lex_flip [] (y ∷ b) h = cc
lex_flip (x ∷ a) [] h = refl
lex_flip (x ∷ a) (y ∷ b) h = ground (arith, lex_flip a b)

IsBelow-trans : (a b : List ℕ) (es : List Entry) → lex a b ≡ below → IsBelow b es → IsBelow a es
IsBelow-trans a b [] h g = tt
IsBelow-trans a b ((k, v) ∷ es) h g = (lex_trans a b k h g.0, IsBelow-trans a b es h g.1)

IsBelow-insert :
    (a key val : List ℕ) (es : List Entry)
    → lex a key ≡ below
    → IsBelow a es
    → IsBelow a (insert key val es)
unfolding insert
IsBelow-insert a key val [] h g = (h, tt)
IsBelow-insert a key val ((k, v) ∷ es) h g = ground (arith, IsBelow-insert a key val es h g.1)

-- Inserting keeps the order of the keys.
pub insert-IsSorted :
    (key val : List ℕ) (es : List Entry) → IsSorted es → IsSorted (insert key val es)
unfolding insert
insert-IsSorted key val [] h = (tt, tt)
insert-IsSorted key val ((k, v) ∷ es) h = ground (
  arith,
  lex-same key k,
  lex_flip key k,
  IsBelow-trans key k es,
  IsBelow-insert k key val es,
  insert-IsSorted key val es,
)

-- The inserted key has the new value.
pub lookup-insert_self :
    (key val : List ℕ) (es : List Entry) → lookup key (insert key val es) ≡ some val
unfolding lookup insert
lookup-insert_self key val [] = ground (arith, lex_self key)
lookup-insert_self key val ((k, v) ∷ es) =
    ground (arith, lex_self key, lookup-insert_self key val es)

-- Every other key keeps its value.
pub lookup-insert_ne :
    (key val j : List ℕ) (es : List Entry) → j ≢ key → lookup j (insert key val es) ≡ lookup j es
unfolding lookup insert
lookup-insert_ne key val j [] ne = ground (arith, lex-same j key)
lookup-insert_ne key val j ((k, v) ∷ es) ne =
    ground (arith, lex-same j key, lex-same key k, lookup-insert_ne key val j es ne)

-- A key that comes before all of them is not there.
pub lookup_below : (key : List ℕ) (es : List Entry) → IsBelow key es → lookup key es ≡ none
unfolding lookup
lookup_below key [] h = refl
lookup_below key ((k, v) ∷ es) h = ground (arith, h.0, lookup_below key es h.1)

-- Whether the search found its key: the first entry from the place on has it.
unfoldable pub is_at : List ℕ → List Entry → Bool
is_at key [] = false
is_at key ((k, v) ∷ es) = elim (lex key k) [ same ↦ true | below ↦ false | above ↦ is_at key es ]

pub before-append-after : (key : List ℕ) (es : List Entry) → before key es ++ after key es ≡ es
unfolding before after
before-append-after key [] = refl
before-append-after key ((k, v) ∷ es) = ground (arith, before-append-after key es)

-- The entry of a key that the search found.
pub record Found (key : List ℕ) (es : List Entry) : Type 0 where
  pub old : List ℕ
  pub others : List Entry
  pub place : after key es ≡ (key, old) ∷ others
  pub value : lookup key es ≡ some old
  pub inserted : (val : List ℕ) → insert key val es ≡ before key es ++ (key, val) ∷ others

pub is_at-Found : (key : List ℕ) (es : List Entry) → is_at key es ≡ true → Found key es
unfolding is_at lookup insert before after
is_at-Found key [] h = cc
is_at-Found key ((k, v) ∷ es) h = elim (Cmp-cases (lex key k)) [
  | inl c ↦ absurd (ground arith)
  | inr (inl c) ↦ record {
    old = v;
    others = es;
    place = ground (arith, lex-same key k);
    value = ground arith;
    inserted = λ val. ground arith;
  }
  | inr (inr c) ↦
      let f : Found key es = is_at-Found key es (ground arith) in
      record {
        old = f.old;
        others = f.others;
        place = ground (arith, f.place);
        value = ground (arith, f.value);
        inserted = λ val. ground (arith, f.inserted val);
      }
]

-- In a sorted list the search finds every key that is there.
pub is_at-lookup :
    (key : List ℕ) (es : List Entry) → IsSorted es → is_at key es ≡ false → lookup key es ≡ none
unfolding is_at lookup
is_at-lookup key [] s h = refl
is_at-lookup key ((k, v) ∷ es) s h =
    ground (arith, lookup_below key es, IsBelow-trans key k es, is_at-lookup key es)
