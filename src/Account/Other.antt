-- ===== src/Account/Other.antt =====
-- Which accounts a donation touches, and which one an id stands for.
use idris2_ouc.Base.{
  ℕ, ◌≡◌, ◌≢◌, ◌∙◌, sym, refl, ap, List, [], ◌∷◌, ◌++◌, none, some, true, false, length, get_elem?,
  arith, inl, inr, Bool-cases, dec_lt,
}
use idris2_ouc.Account.{
  Account, id_matches, find_loop, find_protocol_account, fresh_account, credit, update_at,
  balance_at, ouc_donate, ouc_get_protocol_balance,
}
use idris2_ouc.Account.Slots.{
  find_loop-update_at, find_loop-append_kept, find_loop-append_miss, get-update_at_ne,
  get-append_kept, get-append_end, id_matches-take, id_matches-prefix,
}
use idris2_ouc.Account.Donate.{
  at_slot, nowhere, find_protocol_account-Lookup, donate-found, donate-made, donate-full,
  credit_keeps, fresh_matches, some_inj,
}

-- Two ids of 42 characters that match one slot are the same.
one_id :
    (slot id other : List ℕ)
    → length id ≡ 42
    → length other ≡ 42
    → id_matches 42 slot id ≡ true
    → id_matches 42 slot other ≡ true
    → id ≡ other
one_id slot id other h k m n =
    sym (id_matches-take 42 slot id h m) ∙ id_matches-take 42 slot other k n

module _ (id other : List ℕ) (s t : List Account) where
  -- The balance of `other` is read from the same slot.
  same_slot :
      (j : ℕ)
      → find_protocol_account other s ≡ some j
      → find_protocol_account other t ≡ some j
      → get_elem? t j ≡ get_elem? s j
      → ouc_get_protocol_balance other t ≡ ouc_get_protocol_balance other s
  unfolding ouc_get_protocol_balance balance_at
  same_slot j e f g = ground (arith, e, f, g)

  both_nowhere :
      find_protocol_account other s ≡ none
      → find_protocol_account other t ≡ none
      → ouc_get_protocol_balance other t ≡ ouc_get_protocol_balance other s
  unfolding ouc_get_protocol_balance
  both_nowhere e f = ground (arith, e, f)

-- A credit to the slot of another id.
written :
    (id other : List ℕ) (amount now : ℕ) (s : List Account) (i : ℕ) (a : Account)
    → length id ≡ 42
    → length other ≡ 42
    → id ≢ other
    → get_elem? s i ≡ some a
    → id_matches 42 a.protocol_id id ≡ true
    → ouc_get_protocol_balance other (update_at i (credit amount now) s)
      ≡ ouc_get_protocol_balance other s
unfolding find_protocol_account
written id other amount now s i a h k ne g m =
    let t = update_at i (credit amount now) s in
    let same : find_protocol_account other t ≡ find_protocol_account other s =
      find_loop-update_at other s 0 i (credit amount now) (credit_keeps amount now) in
    elim (find_protocol_account-Lookup other s) [
      | nowhere e ↦ both_nowhere id other s t e (same ∙ e)
      | at_slot j b e f n ↦
          same_slot id other s t j e (same ∙ e)
            (get-update_at_ne s i j (credit amount now) (λ (q : i ≡ j). ne (clash j b f n q)))
    ]
  where
    clash :
        (j : ℕ) (b : Account)
        → get_elem? s j ≡ some b
        → id_matches 42 b.protocol_id other ≡ true
        → i ≡ j
        → id ≡ other
    clash j b f n q = one_id a.protocol_id id other h k m (
        ap (λ r. id_matches 42 r.protocol_id other) {x = a} {y = b}
          (some_inj a b (sym g ∙ ap (get_elem? s) q ∙ f))
        ∙ n)

-- The account that a donation makes for a new id.
made :
    (id other : List ℕ) (s : List Account)
    → length id ≡ 42
    → length other ≡ 42
    → id ≢ other
    → ouc_get_protocol_balance other (s ++ (fresh_account id ∷ []))
      ≡ ouc_get_protocol_balance other s
unfolding find_protocol_account
made id other s h k ne = elim (find_protocol_account-Lookup other s) [
  | nowhere e ↦
      both_nowhere id other s (s ++ (fresh_account id ∷ [])) e
        (find_loop-append_miss other s 0 (fresh_account id) e mismatch)
  | at_slot j b e f n ↦
      same_slot id other s (s ++ (fresh_account id ∷ [])) j e
        (find_loop-append_kept other s 0 j (fresh_account id) e)
        (get-append_kept s (fresh_account id) b j f ∙ sym f)
]
  where
    mismatch : id_matches 42 (fresh_account id).protocol_id other ≡ false
    mismatch = elim (Bool-cases (id_matches 42 (fresh_account id).protocol_id other)) [
      | inl hit ↦
          absurd (ne (one_id (fresh_account id).protocol_id id other h k (fresh_matches id) hit))
      | inr miss ↦ miss
    ]

-- A donation to one id leaves the balance of every other id alone (ids of 42 characters).
pub donate-other :
    (id other : List ℕ) (amount now : ℕ) (s : List Account)
    → length id ≡ 42
    → length other ≡ 42
    → id ≢ other
    → ouc_get_protocol_balance other (ouc_donate id amount now s).1
      ≡ ouc_get_protocol_balance other s
donate-other id other amount now s h k ne = elim (find_protocol_account-Lookup id s) [
  | at_slot i a e g m ↦
      rw (donate-found id amount now s i a e g) (written id other amount now s i a h k ne g m)
  | nowhere e ↦ elim (dec_lt (length s) 256) [
    | no full ↦ rw (donate-full id amount now s e (omega arith)) refl
    | yes room ↦ rw (donate-made id amount now s e room) (
        written id other amount now (s ++ (fresh_account id ∷ [])) (length s) (fresh_account id) h k
          ne (get-append_end s (fresh_account id)) (fresh_matches id)
        ∙ made id other s h k ne)
  ]
]

-- The account in the first slot, if it is active, answers to every prefix of its id, the empty one too.
pub prefix-found :
    (id rest : List ℕ) (a : Account) (s : List Account)
    → a.active ≡ true
    → a.protocol_id ≡ id ++ rest
    → find_protocol_account id (a ∷ s) ≡ some 0
unfolding find_protocol_account find_loop
prefix-found id rest a s h e = ground (arith, id_matches-prefix 42 id rest, e)
