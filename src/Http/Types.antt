-- ===== src/Http/Types.antt =====
-- A reader of Candid's type tables, after the Candid specification: what the messages of
-- lib/ic0/canister_entry.c say of their types.
use idris2_ouc.Base.{
  ℕ, zero, suc, ◌-◌, List, [], ◌∷◌, Option, some, none, ◌>>=◌, ltb, leb, ◌==◌, ◌&&◌, if◌then◌else◌,
  drop, get_or,
}
use idris2_ouc.Leb128.{parse_leb128}

-- A type that another type names: an entry of the table, or a primitive type by its code, below zero.
pub data TypeRef : Type 0 where
  entry primitive : ℕ → TypeRef

-- The entries of a table; a field has the hash of its name.
pub data Entry : Type 0 where
  opt vec : TypeRef → Entry
  rows variants : List (ℕ × TypeRef) → Entry

-- A number of one byte in signed LEB128: an index, or the code of a primitive type, -1 to -17.
unfoldable pub read_ref : List ℕ → Option (TypeRef × List ℕ)
read_ref [] = none
read_ref (b ∷ bs) =
    if ltb b 64
    then some (entry b, bs)
    else if leb 111 b && ltb b 128
    then some (primitive (128 - b), bs)
    else none

unfoldable pub read_fields : ℕ → List ℕ → Option (List (ℕ × TypeRef) × List ℕ)
read_fields zero bs = some ([], bs)
read_fields (suc n) bs = do
  (hash, bs1) ← parse_leb128 bs
  (ref, bs2) ← read_ref bs1
  (fields, bs3) ← read_fields n bs2
  some ((hash, ref) ∷ fields, bs3)

-- The opcodes -18 to -21.
unfoldable pub read_entry : List ℕ → Option (Entry × List ℕ)
read_entry [] = none
read_entry (b ∷ bs) =
    let as_opt = (do (ref, bs1) ← read_ref bs; some (opt ref, bs1)) in
    let as_vec = (do (ref, bs1) ← read_ref bs; some (vec ref, bs1)) in
    let as_rows = (do
      (n, bs1) ← parse_leb128 bs
      (fs, bs2) ← read_fields n bs1
      some (rows fs, bs2)) in
    let as_variants = (do
      (n, bs1) ← parse_leb128 bs
      (fs, bs2) ← read_fields n bs1
      some (variants fs, bs2)) in
    if b == 110
    then as_opt
    else if b == 109
    then as_vec
    else if b == 108
    then as_rows
    else if b == 107
    then as_variants
    else none

unfoldable pub read_entries : ℕ → List ℕ → Option (List Entry × List ℕ)
read_entries zero bs = some ([], bs)
read_entries (suc n) bs = do
  (e, bs1) ← read_entry bs
  (es, bs2) ← read_entries n bs1
  some (e ∷ es, bs2)

unfoldable pub read_refs : ℕ → List ℕ → Option (List TypeRef × List ℕ)
read_refs zero bs = some ([], bs)
read_refs (suc n) bs = do (r, bs1) ← read_ref bs; (rs, bs2) ← read_refs n bs1; some (r ∷ rs, bs2)

-- A message: its table, the types of its arguments, and the bytes of their values.
pub record Message : Type 0 where
  pub table : List Entry
  pub arguments : List TypeRef
  pub values : List ℕ

unfoldable pub read_message : List ℕ → Option Message
read_message msg =
    if get_or msg 0 0 == b'D'
      && (get_or msg 1 0 == b'I' && (get_or msg 2 0 == b'D' && get_or msg 3 0 == b'L'))
    then (do
      (n, bs1) ← parse_leb128 (drop 4 msg)
      (es, bs2) ← read_entries n bs1
      (k, bs3) ← parse_leb128 bs2
      (rs, bs4) ← read_refs k bs3
      some (record { table = es; arguments = rs; values = bs4 }))
    else none
