-- ===== src/Monitor/Watched.antt =====
-- That a registration in lib/ic0/canister_entry.c puts the address and the selector in the table.
use idris2_ouc.Base.{
  ℕ, zero, suc, ◌<◌, ◌≡◌, refl, ap₂, List, [], ◌∷◌, some, true, Bool-cases, inl, inr, length, take,
  All, arith, get_elem?,
}
use idris2_ouc.Account.{id_matches}
use idris2_ouc.Monitor.{MonitoredContract, same_contract, selector_exists, register_monitor}
use idris2_ouc.Monitor.Register.{is_watched, register-is_watched}

-- A contract of the table has the address, the chain, and the selector in one of its rows: the first
-- 42 bytes of the one and the first 10 of the other.
pub record IsWatched (address selector : List ℕ) (chain_id : ℕ) (s : List MonitoredContract)
    : Type 0 where
  pub index : ℕ
  pub contract : MonitoredContract
  pub stands : get_elem? s index ≡ some contract
  pub same_address : take 42 contract.dictionary ≡ address
  pub same_chain : contract.chain_id ≡ chain_id
  pub row : ℕ
  pub selector_bytes : List ℕ
  pub row_stands : get_elem? contract.selectors row ≡ some selector_bytes
  pub same_selector : take 10 selector_bytes ≡ selector

matches-take :
    (n : ℕ) (slot id : List ℕ) → length id ≡ n → id_matches n slot id ≡ true → take n slot ≡ id
unfolding id_matches
matches-take zero slot [] h e = refl
matches-take zero slot (c ∷ id) h e = absurd (omega arith)
matches-take (suc n) slot [] h e = absurd (omega arith)
matches-take (suc n) [] (c ∷ id) h e = cc
matches-take (suc n) (b ∷ slot) (c ∷ id) h e =
    ap₂ (λ x xs. x ∷ xs) (ground arith) (matches-take n slot id (omega arith) (ground arith))

exists-row :
    (selector : List ℕ) (rows : List (List ℕ))
    → length selector ≡ 10
    → selector_exists selector rows ≡ true
    → (i : ℕ) × (row : List ℕ) × (get_elem? rows i ≡ some row) × (take 10 row ≡ selector)
unfolding selector_exists
exists-row selector [] h e = cc
exists-row selector (row ∷ rows) h e = elim (Bool-cases (id_matches 10 row selector)) [
  | inl same ↦ (0, row, refl, matches-take 10 row selector h same)
  | inr other ↦
      let (i, found, at, eq) = exists-row selector rows h (ground arith) in (suc i, found, at, eq)
]

contract_lem :
    (address selector : List ℕ) (chain_id : ℕ) (s : List MonitoredContract)
    → length address ≡ 42
    → length selector ≡ 10
    → is_watched address selector chain_id s ≡ true
    → IsWatched address selector chain_id s
unfolding is_watched
contract_lem address selector chain_id [] ha hs e = cc
contract_lem address selector chain_id (c ∷ s) ha hs e =
    elim (Bool-cases (same_contract address chain_id c)) [
      | inl same ↦
          let (row, found, at, eq) = exists-row selector c.selectors hs (ground arith) in
          record {
            index = 0;
            contract = c;
            stands = refl;
            same_address = matches-take 42 c.dictionary address ha (same_lem c same).0;
            same_chain = (same_lem c same).1;
            row = row;
            selector_bytes = found;
            row_stands = at;
            same_selector = eq;
          }
      | inr other ↦
          let w = contract_lem address selector chain_id s ha hs (ground arith) in
          record {
            index = suc w.index;
            contract = w.contract;
            stands = w.stands;
            same_address = w.same_address;
            same_chain = w.same_chain;
            row = w.row;
            selector_bytes = w.selector_bytes;
            row_stands = w.row_stands;
            same_selector = w.same_selector;
          }
    ]
  where
    same_lem :
        (c : MonitoredContract)
        → same_contract address chain_id c ≡ true
        → (id_matches 42 c.dictionary address ≡ true) × (c.chain_id ≡ chain_id)
    same_lem c same = unfold same_contract in (ground arith, ground arith)

-- Where the table has a free slot and every contract in it room for one more selector, a contract of
-- the table has the address, the chain and the selector after the registration. (An address of 42
-- and a selector of 10 characters.)
pub register-IsWatched :
    (address selector : List ℕ) (chain_id : ℕ) (s : List MonitoredContract)
    → length address ≡ 42
    → length selector ≡ 10
    → length s < 16
    → All (λ c. length c.selectors < 8) s
    → IsWatched address selector chain_id (register_monitor address selector chain_id s).1
register-IsWatched address selector chain_id s ha hs room h =
    contract_lem address selector chain_id (register_monitor address selector chain_id s).1 ha hs
      (register-is_watched address selector chain_id s room h)
