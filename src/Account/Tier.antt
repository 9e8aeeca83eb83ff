-- ===== src/Account/Tier.antt =====
-- The tiers: what a donation pays for, and what holds of every account after any donations.
use idris2_ouc.Base.{
  ℕ, zero, suc, ◌+◌, ◌≤◌, ◌<◌, ◌^◌, ◌⊎◌, dec_lt, ◌≡◌, refl, ap, List, [], ◌∷◌, ◌++◌, some, true,
  length, get_elem?, arith, All, length-append,
}
use idris2_ouc.Word.{u64}
use idris2_ouc.Account.{
  Account, fresh_account, calculate_tier, credit, update_at, find_protocol_account, ouc_donate,
  ouc_get_protocol_count,
}
use idris2_ouc.Account.Donate.{
  at_slot, nowhere, find_protocol_account-Lookup, donate-found, donate-made, donate-full,
  credit-balance,
}
use idris2_ouc.Account.Slots.{get-update_at_self}

-- The tier of an account is one of the four, at least the one that its balance pays for, and the
-- balance is a 64-bit number.
pub record IsPaid (a : Account) : Type 0 where
  pub word : a.balance < 2 ^ 64
  pub paid : calculate_tier a.balance ≤ a.tier
  pub known : a.tier ≤ 3
  pub used : a.active ≡ true

-- What holds of the accounts at all times.
pub record IsLedger (s : List Account) : Type 0 where
  pub accounts : All IsPaid s
  pub bounded : ouc_get_protocol_count s ≤ 256

calculate_tier-le : (b : ℕ) → calculate_tier b ≤ 3
unfolding calculate_tier
calculate_tier-le b = ground arith

fresh_account-IsPaid : (id : List ℕ) → IsPaid (fresh_account id)
unfolding fresh_account calculate_tier
fresh_account-IsPaid id = record {
  word = omega arith;
  paid = omega arith;
  known = omega arith;
  used = refl;
}

credit-IsPaid : (amount now : ℕ) (a : Account) → IsPaid a → IsPaid (credit amount now a)
unfolding credit
credit-IsPaid amount now a h = record {
  word = ground arith;
  paid = ground arith;
  known = ground (arith, h.known, calculate_tier-le (u64 (a.balance + amount)));
  used = ground (arith, h.used);
}

update_at-All :
    (k amount now : ℕ) (s : List Account)
    → All IsPaid s
    → All IsPaid (update_at k (credit amount now) s)
unfolding update_at
update_at-All k amount now [] h = tt
update_at-All zero amount now (a ∷ s) (ha, h) = (credit-IsPaid amount now a ha, h)
update_at-All (suc k) amount now (a ∷ s) (ha, h) = (ha, update_at-All k amount now s h)

length-update_at :
    (k : ℕ) (f : Account → Account) (s : List Account) → length (update_at k f s) ≡ length s
unfolding update_at
length-update_at k f [] = refl
length-update_at zero f (a ∷ s) = refl
length-update_at (suc k) f (a ∷ s) = ap suc (length-update_at k f s)

append-All : (s : List Account) (a : Account) → All IsPaid s → IsPaid a → All IsPaid (s ++ (a ∷ []))
append-All [] a h p = (p, tt)
append-All (b ∷ s) a (hb, h) p = (hb, append-All s a h p)

donated :
    (k amount now : ℕ) (s : List Account)
    → All IsPaid s
    → length s ≤ 256
    → IsLedger (update_at k (credit amount now) s)
unfolding ouc_get_protocol_count
donated k amount now s h n = record {
  accounts = update_at-All k amount now s h;
  bounded = omega (arith, length-update_at k (credit amount now) s);
}

-- Every donation keeps the accounts in order, if they were: at most 256 of them, each with a 64-bit balance and a
-- tier from 0 to 3 that is at least the one that its balance pays for.
pub donate-IsLedger :
    (id : List ℕ) (amount now : ℕ) (s : List Account)
    → IsLedger s
    → IsLedger (ouc_donate id amount now s).1
unfolding ouc_get_protocol_count
donate-IsLedger id amount now s h = elim (find_protocol_account-Lookup id s) [
  | at_slot k a e g m ↦
      rw (donate-found id amount now s k a e g) (donated k amount now s h.accounts h.bounded)
  | nowhere e ↦ elim (dec_lt (length s) 256) [
    | no full ↦ rw (donate-full id amount now s e (omega arith)) h
    | yes room ↦ rw (donate-made id amount now s e room) (
        donated (length s) amount now (s ++ (fresh_account id ∷ []))
          (append-All s (fresh_account id) h.accounts (fresh_account-IsPaid id))
          (omega (arith, length-append s (fresh_account id ∷ []))))
  ]
]

-- What a credit does to one account.
credit-tier :
    (amount now : ℕ) (a : Account)
    → (((credit amount now a).tier ≡ a.tier) × ((credit amount now a).expires_at ≡ a.expires_at))
      ⊎ ((a.tier < (credit amount now a).tier)
          × ((credit amount now a).expires_at ≡ u64 (now + 2592000000000000)))
unfolding credit
credit-tier amount now a = ground arith

-- A donation to a registered account, which lies in slot `k`, either keeps its tier and the end of its
-- period, or raises the tier and sets the end to 30 days from now (modulo 2^64).
pub donate-tier :
    (id : List ℕ) (amount now k : ℕ) (s : List Account) (a : Account)
    → find_protocol_account id s ≡ some k
    → get_elem? s k ≡ some a
    → (b : Account) × (get_elem? (ouc_donate id amount now s).1 k ≡ some b)
      × (b.balance ≡ u64 (a.balance + amount))
      × (((b.tier ≡ a.tier) × (b.expires_at ≡ a.expires_at))
          ⊎ ((a.tier < b.tier) × (b.expires_at ≡ u64 (now + 2592000000000000))))
donate-tier id amount now k s a e g = (
  credit amount now a,
  rw (donate-found id amount now s k a e g) (get-update_at_self s k (credit amount now) a g),
  credit-balance amount now a,
  credit-tier amount now a,
)
