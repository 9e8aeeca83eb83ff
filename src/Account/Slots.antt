-- ===== src/Account/Slots.antt =====
-- Finding a slot, and finding it again after a write or an append.
use idris2_ouc.Base.{
  ℕ, zero, suc, ◌+◌, ◌≡◌, ◌≢◌, refl, ap, List, [], ◌∷◌, ◌++◌, none, some, Bool, true, false, ◌&&◌,
  length, take, get_elem?, arith, ◌⊎◌, inl, inr,
}
use idris2_ouc.Account.{Account, id_matches, find_loop, update_at}

-- A slot with an index `i` on in the list.
pub record FoundAt (id : List ℕ) (s : List Account) (i k : ℕ) : Type 0 where
  pub offset : ℕ
  pub slot : Account
  pub index : k ≡ i + offset
  pub there : get_elem? s offset ≡ some slot
  pub matches : id_matches 42 slot.protocol_id id ≡ true

pub find_loop-FoundAt :
    (id : List ℕ) (s : List Account) (i k : ℕ) → find_loop id s i ≡ some k → FoundAt id s i k
unfolding find_loop
find_loop-FoundAt id [] i k e = cc
find_loop-FoundAt id (a ∷ s) i k e = elim (cases (a.active && id_matches 42 a.protocol_id id)) [
  | inl hit ↦ record {
    offset = 0;
    slot = a;
    index = ground arith;
    there = refl;
    matches = ground arith;
  }
  | inr miss ↦
      let f = find_loop-FoundAt id s (i + 1) k (ground arith) in
      record {
        offset = suc f.offset;
        slot = f.slot;
        index = omega (arith, f.index);
        there = f.there;
        matches = f.matches;
      }
]
  where
    cases : (b : Bool) → (b ≡ true) ⊎ (b ≡ false)
    cases true = inl refl
    cases false = inr refl

-- A write that keeps the id and the flag keeps what the search finds.
pub find_loop-update_at :
    (id : List ℕ) (s : List Account) (i k : ℕ) (f : Account → Account)
    → ((a : Account) → ((f a).protocol_id ≡ a.protocol_id) × ((f a).active ≡ a.active))
    → find_loop id (update_at k f s) i ≡ find_loop id s i
unfolding find_loop update_at
find_loop-update_at id [] i k f keep = refl
find_loop-update_at id (a ∷ s) i zero f keep = ground (arith, keep a)
find_loop-update_at id (a ∷ s) i (suc k) f keep =
    ground (arith, find_loop-update_at id s (i + 1) k f keep)

pub find_loop-append :
    (id : List ℕ) (s : List Account) (i : ℕ) (a : Account)
    → find_loop id s i ≡ none
    → a.active ≡ true
    → id_matches 42 a.protocol_id id ≡ true
    → find_loop id (s ++ (a ∷ [])) i ≡ some (i + length s)
unfolding find_loop
find_loop-append id [] i a e act m = ground arith
find_loop-append id (b ∷ s) i a e act m = ground (arith, find_loop-append id s (i + 1) a)

pub find_loop-append_kept :
    (id : List ℕ) (s : List Account) (i k : ℕ) (a : Account)
    → find_loop id s i ≡ some k
    → find_loop id (s ++ (a ∷ [])) i ≡ some k
unfolding find_loop
find_loop-append_kept id [] i k a e = cc
find_loop-append_kept id (b ∷ s) i k a e = ground (arith, find_loop-append_kept id s (i + 1) k a)

pub find_loop-append_miss :
    (id : List ℕ) (s : List Account) (i : ℕ) (a : Account)
    → find_loop id s i ≡ none
    → id_matches 42 a.protocol_id id ≡ false
    → find_loop id (s ++ (a ∷ [])) i ≡ none
unfolding find_loop
find_loop-append_miss id [] i a e m = ground arith
find_loop-append_miss id (b ∷ s) i a e m = ground (arith, find_loop-append_miss id s (i + 1) a)

pub get-update_at_self :
    (s : List Account) (k : ℕ) (f : Account → Account) (a : Account)
    → get_elem? s k ≡ some a
    → get_elem? (update_at k f s) k ≡ some (f a)
unfolding update_at
get-update_at_self [] k f a e = cc
get-update_at_self (b ∷ s) zero f a e = ground arith
get-update_at_self (b ∷ s) (suc k) f a e = get-update_at_self s k f a e

pub get-update_at_ne :
    (s : List Account) (k j : ℕ) (f : Account → Account)
    → k ≢ j
    → get_elem? (update_at k f s) j ≡ get_elem? s j
unfolding update_at
get-update_at_ne [] k j f ne = refl
get-update_at_ne (b ∷ s) zero zero f ne = absurd (ne refl)
get-update_at_ne (b ∷ s) zero (suc j) f ne = refl
get-update_at_ne (b ∷ s) (suc k) zero f ne = refl
get-update_at_ne (b ∷ s) (suc k) (suc j) f ne = get-update_at_ne s k j f (λ e. ne (ap suc e))

pub get-append_end :
    (s : List Account) (a : Account) → get_elem? (s ++ (a ∷ [])) (length s) ≡ some a
get-append_end [] a = refl
get-append_end (b ∷ s) a = get-append_end s a

pub get-append_kept :
    (s : List Account) (a b : Account) (k : ℕ)
    → get_elem? s k ≡ some b
    → get_elem? (s ++ (a ∷ [])) k ≡ some b
get-append_kept [] a b k e = cc
get-append_kept (c ∷ s) a b zero e = e
get-append_kept (c ∷ s) a b (suc k) e = get-append_kept s a b k e

-- Ids of full length match one slot content only.
pub id_matches-take :
    (n : ℕ) (slot id : List ℕ) → length id ≡ n → id_matches n slot id ≡ true → take n slot ≡ id
unfolding id_matches
id_matches-take zero slot [] h e = refl
id_matches-take zero slot (c ∷ id) h e = absurd (omega arith)
id_matches-take (suc n) slot [] h e = absurd (omega arith)
id_matches-take (suc n) [] (c ∷ id) h e = cc
id_matches-take (suc n) (b ∷ slot) (c ∷ id) h e =
    ground (arith, id_matches-take n slot id (omega arith))

-- A slot matches every prefix of its id, the empty one too.
pub id_matches-prefix : (n : ℕ) (id rest : List ℕ) → id_matches n (id ++ rest) id ≡ true
unfolding id_matches
id_matches-prefix zero id rest = refl
id_matches-prefix (suc n) [] rest = refl
id_matches-prefix (suc n) (c ∷ id) rest = ground (arith, id_matches-prefix n id rest)
