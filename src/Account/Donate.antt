-- ===== src/Account/Donate.antt =====
-- What a donation does to the balances.
use idris2_ouc.Base.{
  ℕ, zero, suc, ◌+◌, ◌-◌, ◌≤◌, ◌<◌, ◌≡◌, ◌∙◌, refl, ap, List, [], ◌∷◌, ◌++◌, none, some, true,
  length, take, replicate, get_elem?, arith, inl, inr, Option-cases,
}
use idris2_ouc.Word.{u64}
use idris2_ouc.Account.{
  Account, id_matches, find_loop, find_protocol_account, copied_id, fresh_account,
  create_protocol_account, credit, update_at, balance_at, credit_at, ouc_donate,
  ouc_get_protocol_balance,
}
use idris2_ouc.Account.Slots.{
  find_loop-FoundAt, find_loop-update_at, find_loop-append, get-update_at_self, get-append_end,
}

pub some_inj {ℓ} : {A : Type ℓ} (a b : A) → some a ≡ some b → a ≡ b
some_inj a b e = cc

pub credit_keeps :
    (amount now : ℕ) (a : Account)
    → ((credit amount now a).protocol_id ≡ a.protocol_id)
      × ((credit amount now a).active ≡ a.active)
unfolding credit
credit_keeps amount now a = ground arith

pub credit-balance :
    (amount now : ℕ) (a : Account) → (credit amount now a).balance ≡ u64 (a.balance + amount)
unfolding credit
credit-balance amount now a = ground arith

id_matches-take_self : (n : ℕ) (id rest : List ℕ) → id_matches n (take n id ++ rest) id ≡ true
unfolding id_matches
id_matches-take_self zero id rest = refl
id_matches-take_self (suc n) [] rest = refl
id_matches-take_self (suc n) (c ∷ id) rest = ground (arith, id_matches-take_self n id rest)

pub fresh_matches : (id : List ℕ) → id_matches 42 (fresh_account id).protocol_id id ≡ true
unfolding fresh_account copied_id
fresh_matches id = id_matches-take_self 42 id (replicate (43 - length (take 42 id)) 0)

-- Where the search finds an account, and what lies there.
pub data Lookup (id : List ℕ) (s : List Account) : Type 0 where
  at_slot :
      (k : ℕ) (a : Account)
      → find_protocol_account id s ≡ some k
      → get_elem? s k ≡ some a
      → id_matches 42 a.protocol_id id ≡ true
      → Lookup id s
  nowhere : find_protocol_account id s ≡ none → Lookup id s

pub find_protocol_account-Lookup : (id : List ℕ) (s : List Account) → Lookup id s
unfolding find_protocol_account
find_protocol_account-Lookup id s = elim (Option-cases (find_loop id s 0)) [
  | inl e ↦ nowhere e
  | inr (k, e) ↦
      let f = find_loop-FoundAt id s 0 k e in
      at_slot k f.slot e
        (ap (get_elem? s) {x = k} {y = f.offset} (omega (arith, f.index)) ∙ f.there) f.matches
]

module _ (id : List ℕ) (amount now : ℕ) (s : List Account) where
  -- A donation to an account that is there, and one that makes it.
  pub donate-found :
      (k : ℕ) (a : Account)
      → find_protocol_account id s ≡ some k
      → get_elem? s k ≡ some a
      → ouc_donate id amount now s
        ≡ ((credit amount now a).balance, update_at k (credit amount now) s)
  unfolding ouc_donate credit_at balance_at
  donate-found k a e g = ground (arith, e, get-update_at_self s k (credit amount now) a g)

  pub donate-made :
      find_protocol_account id s ≡ none
      → length s < 256
      → ouc_donate id amount now s ≡ (
        (credit amount now (fresh_account id)).balance,
        update_at (length s) (credit amount now) (s ++ (fresh_account id ∷ [])),
      )
  unfolding ouc_donate credit_at balance_at create_protocol_account
  donate-made e room = ground (
    arith,
    e,
    get-update_at_self (s ++ (fresh_account id ∷ [])) (length s) (credit amount now)
        (fresh_account id) (get-append_end s (fresh_account id)),
  )

  pub donate-full :
      find_protocol_account id s ≡ none → 256 ≤ length s → ouc_donate id amount now s ≡ (0, s)
  unfolding ouc_donate create_protocol_account
  donate-full e full = ground (arith, e)

  balance_of :
      (k : ℕ) (a : Account) (t : List Account)
      → find_protocol_account id t ≡ some k
      → get_elem? t k ≡ some a
      → ouc_get_protocol_balance id t ≡ a.balance
  unfolding ouc_get_protocol_balance balance_at
  balance_of k a t e g = ground (arith, e, g)

  balance_of_none :
      (t : List Account) → find_protocol_account id t ≡ none → ouc_get_protocol_balance id t ≡ 0
  unfolding ouc_get_protocol_balance
  balance_of_none t e = ground (arith, e)

  -- A donation adds its amount, modulo 2^64, to the balance that `ouc_get_protocol_balance` answers for
  -- this id, and returns the new balance; a new id is registered first. This holds unless the id is new
  -- and all 256 slots are taken.
  pub donate-balance :
      ((find_protocol_account id s ≡ none) → length s < 256)
      → (ouc_get_protocol_balance id (ouc_donate id amount now s).1
          ≡ u64 (ouc_get_protocol_balance id s + amount))
        × ((ouc_donate id amount now s).0 ≡ u64 (ouc_get_protocol_balance id s + amount))
  unfolding find_protocol_account fresh_account
  donate-balance room = elim (find_protocol_account-Lookup id s) [
    | at_slot k a e g m ↦
        rw (donate-found k a e g, balance_of k a s e g)
          (
            balance_of k (credit amount now a) (update_at k (credit amount now) s)
                  (find_loop-update_at id s 0 k (credit amount now) (credit_keeps amount now) ∙ e)
                  (get-update_at_self s k (credit amount now) a g)
                ∙ credit-balance amount now a,
            credit-balance amount now a,
          )
    | nowhere e ↦
        rw (donate-made e (room e), balance_of_none s e)
          (
            balance_of (length s) (credit amount now (fresh_account id)) _
                  (find_loop-update_at id (s ++ (fresh_account id ∷ [])) 0 (length s)
                      (credit amount now) (credit_keeps amount now)
                    ∙ find_loop-append id s 0 (fresh_account id) e refl (fresh_matches id)
                    ∙ ap some (omega arith))
                  (get-update_at_self (s ++ (fresh_account id ∷ [])) (length s) (credit amount now)
                    (fresh_account id) (get-append_end s (fresh_account id)))
                ∙ credit-balance amount now (fresh_account id),
            credit-balance amount now (fresh_account id),
          )
  ]
