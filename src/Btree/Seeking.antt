-- ===== src/Btree/Seeking.antt =====
-- `stbt_scan_start` of lib/ic0/stable_btree.c finds the first entry with the prefix.
use idris2_ouc.Base.{
  ℕ, ◌+◌, ◌≤◌, ◌<◌, ◌≡◌, ◌∙◌, ◌⊎◌, refl, ap, List, [], ◌∷◌, ◌++◌, some, Option, true, false, length,
  drop, arith, inl, inr, Bool-cases,
}
use idris2_ouc.Btree.{stbt_key_cmp, two_bytes}
use idris2_ouc.Btree.Order.{lex, Cmp-cases}
use idris2_ouc.Btree.Entries.{Entry, IsSorted}
use idris2_ouc.Btree.Layout.{entry_bytes, entry_size, lay, size, key_len_at, key_at, val_len_at}
use idris2_ouc.Btree.Search.{next_page, next_offset, next_u16}
use idris2_ouc.Btree.Scan.{Seek, match, passed, ended, seek_loop, stbt_has_prefix}
use idris2_ouc.Btree.Prefix.{starts, matching, has_prefix-starts, key_cmp-lex_left, matching_passed}

-- The first entry with the prefix, and its place.
pub record Match (p : List ℕ) (es : List Entry) : Type 0 where
  pub done : List Entry
  pub key : List ℕ
  pub val : List ℕ
  pub rest : List Entry
  pub parts : es ≡ done ++ (key, val) ∷ rest
  pub has : starts p key ≡ true
  pub none_before : matching p es ≡ matching p ((key, val) ∷ rest)
  pub sorted : IsSorted ((key, val) ∷ rest)

-- What the loop answers that looks from offset `o` on.
abbrev Sought : List ℕ → List Entry → ℕ → Option Seek → Type 0
Sought p es o out =
    ((f : Match p es) × (out ≡ some (match (o + size f.done))))
    ⊎ ((matching p es ≡ []) × ((out ≡ some passed) ⊎ (out ≡ some ended)))

Sought-first :
    (p k v : List ℕ) (es : List Entry) (o : ℕ)
    → starts p k ≡ true
    → IsSorted ((k, v) ∷ es)
    → Sought p ((k, v) ∷ es) o (some (match o))
unfolding size
Sought-first p k v es o c s = inl (
  record {
    done = [];
    key = k;
    val = v;
    rest = es;
    parts = refl;
    has = c;
    none_before = refl;
    sorted = s;
  },
  ap (λ x. some (match x)) (omega arith),
)

Sought-later :
    (p k v : List ℕ) (es : List Entry) (o : ℕ) (out : Option Seek)
    → starts p k ≡ false
    → Sought p es (o + entry_size k v) out
    → Sought p ((k, v) ∷ es) o out
unfolding matching size
Sought-later p k v es o out c (inl (f, e)) = inl (
  record {
    done = (k, v) ∷ f.done;
    key = f.key;
    val = f.val;
    rest = f.rest;
    parts = ap (λ xs. (k, v) ∷ xs) f.parts;
    has = f.has;
    none_before = rw c f.none_before;
    sorted = f.sorted;
  },
  e ∙ ap (λ x. some (match x)) (omega arith),
)
Sought-later p k v es o out c (inr (e, how)) = inr (rw c e, how)

-- The tests of the loops on the entry at `o`.
module _ (page front k v back : List ℕ) (o : ℕ) (e : page ≡ front ++ entry_bytes k v back)
    (eo : o ≡ length front) (hk : length k < 65536) (hv : length v < 65536) (p : List ℕ) where
  pub has_prefix_at :
      stbt_has_prefix (drop (o + 2) page) (length k) p (length p) ≡ some (starts p k)
  has_prefix_at =
      rw (key_at page front k v back o e eo hk hv)
        (has_prefix-starts k p (two_bytes (length v) ++ (v ++ back)))

  prefix_cmp_at : stbt_key_cmp (drop (o + 2) page) (length k) p (length p) ≡ some (lex k p)
  prefix_cmp_at =
      rw (key_at page front k v back o e eo hk hv)
        (key_cmp-lex_left k p (two_bytes (length v) ++ (v ++ back)))

pub seek_lem :
    (es : List Entry) (page front back p : List ℕ) (o : ℕ)
    → page ≡ front ++ lay es back
    → o ≡ length front
    → o + size es ≤ 4096
    → IsSorted es
    → Sought p es o (seek_loop page p (length p) (length es) o)
unfolding seek_loop size
seek_lem [] page front back p o e eo h s = inr (unfold matching in refl, inr refl)
seek_lem ((k, v) ∷ es) page front back p o e eo h s =
    let hk : length k < 65536 = unfold entry_size in omega arith in
    let hv : length v < 65536 = unfold entry_size in omega arith in
    let e' : page ≡ front ++ entry_bytes k v (lay es back) = unfold lay in e in
    let read_key = key_len_at page front k v (lay es back) o e' eo hk hv in
    let tested = has_prefix_at page front k v (lay es back) o e' eo hk hv p in
    let compared = prefix_cmp_at page front k v (lay es back) o e' eo hk hv p in
    let read_val = val_len_at page front k v (lay es back) o e' eo hk hv in
    let moved = next_u16 page front k v es back o e eo h in
    let later : Sought p es (o + entry_size k v)
        (seek_loop page p (length p) (length es) (o + entry_size k v)) =
      seek_lem es page (front ++ entry_bytes k v []) back p (o + entry_size k v)
        (next_page page front k v es back o e eo) (next_offset page front k v es back o e eo)
        (omega arith) s.1 in
    elim (Bool-cases (starts p k)) [
      | inl c ↦ rw (read_key, tested, c) (Sought-first p k v es o c s)
      | inr c ↦
          let next = seek_loop page p (length p) (length es) (o + entry_size k v) in
          let on = Sought-later p k v es o next c later in
          elim (Cmp-cases (lex k p)) [
            | inl d ↦ rw (read_key, tested, c, compared, d, read_val, moved) on
            | inr (inl d) ↦ rw (read_key, tested, c, compared, d, read_val, moved) on
            | inr (inr d) ↦
                rw (read_key, tested, c, compared, d)
                  (inr ((unfold matching in rw c (matching_passed p k es d c s.0)), inl refl))
          ]
    ]
