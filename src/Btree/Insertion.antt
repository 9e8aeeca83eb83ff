-- ===== src/Btree/Insertion.antt =====
-- What `stbt_leaf_insert_at` of lib/ic0/stable_btree.c makes of a leaf, and the copy of a value
-- over one of its length.
use idris2_ouc.Base.{
  ℕ, ◌+◌, ◌-◌, ◌≤◌, ◌≡◌, ◌∙◌, refl, sym, ap, ap₂, List, [], ◌∷◌, ◌++◌, some, length, length-append,
  append_assoc, take, drop, take-append-drop, length-take, length-drop, Bool-cases, inl, inr, ltb,
  if◌then◌else◌, arith, false,
}
use idris2_ouc.Base.Split.{take-append, drop-append}
use idris2_ouc.Btree.{copy_in, two_bytes}
use idris2_ouc.Btree.First.{in_page}
use idris2_ouc.Btree.Entries.{Entry, insert, before, after, before-append-after, is_at}
use idris2_ouc.Btree.Layout.{
  entry_size, lay, size, leaf_head, length-lay, lay-append, lay-append_lay, size-append,
}
use idris2_ouc.Btree.Search.{leaf_page}

-- A copy over bytes of the same number.
pub copy_over :
    (front old rest bs : List ℕ)
    → length bs ≡ length old
    → copy_in (length front) bs (front ++ (old ++ rest)) ≡ some (front ++ (bs ++ rest))
unfolding copy_in
copy_over front old rest bs e =
    rw (take-append front (old ++ rest), behind)
      (in_page (length front + length bs) (length (front ++ (old ++ rest))) (front ++ (bs ++ rest))
        (omega (arith, length-append front (old ++ rest), length-append old rest)))
  where
    behind : drop (length front + length bs) (front ++ (old ++ rest)) ≡ rest
    behind =
        ap₂ drop {x = length front + length bs} {y = length (front ++ old)}
          (omega (arith, e, length-append front old)) (sym (append_assoc front old rest))
        ∙ drop-append (front ++ old) rest

pub copy_over_at :
    (page front old rest bs : List ℕ) (o : ℕ)
    → page ≡ front ++ (old ++ rest)
    → o ≡ length front
    → length bs ≡ length old
    → copy_in o bs page ≡ some (front ++ (bs ++ rest))
copy_over_at page front old rest bs o e eo h = rw (e, eo) (copy_over front old rest bs h)

-- `page` is `front`, a gap, `tail`, and bytes that belong to no entry.
pub record Gap (front tail : List ℕ) (gap total : ℕ) (page : List ℕ) : Type 0 where
  pub hole : List ℕ
  pub unused : List ℕ
  pub parts : page ≡ front ++ (hole ++ (tail ++ unused))
  pub hole_size : length hole ≡ gap
  pub page_size : length page ≡ total

-- Moving the entries behind the place leaves a gap of the size of the new entry.
module _ (front tail back : List ℕ) (gap : ℕ) (room : gap ≤ length back) where
  abbrev whole : List ℕ
  whole = front ++ (tail ++ back)

  abbrev old : List ℕ
  old = take gap (tail ++ back)

  abbrev more : List ℕ
  more = drop gap (tail ++ back)

  abbrev rest : List ℕ
  rest = drop (length tail) more

  length-old : length old ≡ gap
  length-old = omega (arith, length-take gap (tail ++ back), length-append tail back)

  length-more : length more + gap ≡ length tail + length back
  length-more = omega (arith, length-drop gap (tail ++ back), length-append tail back)

  whole-split : whole ≡ (front ++ old) ++ (take (length tail) more ++ rest)
  whole-split =
      ap (λ r. front ++ r)
        (sym (take-append-drop gap (tail ++ back))
          ∙ ap (λ r. old ++ r) (sym (take-append-drop (length tail) more)))
      ∙ sym (append_assoc front old (take (length tail) more ++ rest))

  shift_lem :
      (page : List ℕ) × (copy_in (length front + gap) tail whole ≡ some page)
      × Gap front tail gap (length whole) page
  shift_lem = (
    (front ++ old) ++ (tail ++ rest),
    copy_over_at whole (front ++ old) (take (length tail) more) rest tail (length front + gap)
        whole-split (omega (arith, length-append front old, length-old))
        (omega (arith, length-take (length tail) more, length-more)),
    record {
      hole = old;
      unused = rest;
      parts = append_assoc front old (tail ++ rest);
      hole_size = length-old;
      page_size = omega (
        arith,
        length-append (front ++ old) (tail ++ rest),
        length-append front old,
        length-append tail rest,
        length-drop (length tail) more,
        length-append front (tail ++ back),
        length-append tail back,
        length-old,
        length-more,
      );
    },
  )

-- With no entry behind the place nothing moves.
stay_lem :
    (front back : List ℕ) (gap : ℕ)
    → gap ≤ length back
    → Gap front [] gap (length (front ++ back)) (front ++ back)
stay_lem front back gap room = record {
  hole = take gap back;
  unused = drop gap back;
  parts = ap (λ r. front ++ r) (sym (take-append-drop gap back));
  hole_size = omega (arith, length-take gap back);
  page_size = refl;
}

lay_nothing : (es : List Entry) → size es ≡ 0 → lay es [] ≡ []
unfolding lay size entry_size
lay_nothing [] e = refl
lay_nothing ((k, v) ∷ es) e = absurd (omega arith)

-- A leaf in front of the place of a key, and from it on.
module _ (es : List Entry) (back key : List ℕ) where
  abbrev pub front_of : List ℕ
  front_of = leaf_head (length es) ++ lay (before key es) []

  pub length-front_of : length front_of ≡ 11 + size (before key es)
  unfolding leaf_head two_bytes
  length-front_of = omega (arith, length-lay (before key es) [])

  pub size-split : size es ≡ size (before key es) + size (after key es)
  size-split =
      ap size (sym (before-append-after key es)) ∙ size-append (before key es) (after key es)

  pub leaf_page-split : leaf_page es back ≡ front_of ++ lay (after key es) back
  unfolding leaf_page
  leaf_page-split =
      ap (λ r. leaf_head (length es) ++ r)
        (ap (λ xs. lay xs back) (sym (before-append-after key es))
          ∙ lay-append_lay (before key es) (after key es) back
          ∙ sym (lay-append (before key es) [] (lay (after key es) back)))
      ∙ sym
          (append_assoc (leaf_head (length es)) (lay (before key es) []) (lay (after key es) back))

  abbrev pub tail_of : List ℕ
  tail_of = lay (after key es) []

  pub length-tail_of : length tail_of ≡ size (after key es)
  length-tail_of = omega (arith, length-lay (after key es) [])

  leaf_page-parts : leaf_page es back ≡ front_of ++ (tail_of ++ back)
  leaf_page-parts =
      leaf_page-split ∙ ap (λ r. front_of ++ r) (sym (lay-append (after key es) [] back))

  moved :
      take
        (11 + size es - (11 + size (before key es)))
        (drop (11 + size (before key es)) (leaf_page es back))
      ≡ tail_of
  moved =
      ap₂ take {x = 11 + size es - (11 + size (before key es))} {y = length tail_of}
        (omega (arith, size-split, length-tail_of))
        (ap₂ drop (sym length-front_of) leaf_page-parts ∙ drop-append front_of (tail_of ++ back))
      ∙ take-append tail_of back

  -- The page when the gap for the new entry has been made.
  pub shifted_lem :
      (gap : ℕ)
      → gap ≤ length back
      → (page : List ℕ) × ((if ltb (11 + size (before key es)) (11 + size es)
            then copy_in
                (11 + size (before key es) + gap)
                (take
                  (11 + size es - (11 + size (before key es)))
                  (drop (11 + size (before key es)) (leaf_page es back)))
                (leaf_page es back)
            else some (leaf_page es back))
          ≡ some page)
        × Gap front_of tail_of gap (length (leaf_page es back)) page
  shifted_lem gap room = elim (Bool-cases (ltb (11 + size (before key es)) (11 + size es))) [
    | inl c ↦
        let (page, e, g) = shift_lem front_of tail_of back gap room in
        (
          page,
          rw (c, moved)
              (ap₂ (λ o p. copy_in o tail_of p) (omega (arith, length-front_of)) leaf_page-parts
                ∙ e),
          rw leaf_page-parts g,
        )
    | inr c ↦ (
      leaf_page es back,
      rw c refl,
      rw (leaf_page-parts, lay_nothing (after key es) (ground (arith, size-split)))
          (stay_lem front_of back gap room),
    )
  ]

pub insert_apart :
    (key val : List ℕ) (es : List Entry)
    → is_at key es ≡ false
    → insert key val es ≡ before key es ++ (key, val) ∷ after key es
unfolding is_at insert before after
insert_apart key val [] h = refl
insert_apart key val ((k, v) ∷ es) h = ground (arith, insert_apart key val es)
