-- ===== src/Monitor/Register.antt =====
-- What a registration for monitoring in lib/ic0/canister_entry.c leaves behind.
use idris2_ouc.Base.{
  ℕ, zero, suc, ◌+◌, ◌-◌, ◌≤◌, ◌<◌, ◌≡◌, refl, ap, List, [], ◌∷◌, ◌++◌, none, some, Bool, true,
  false, Bool-cases, Option-cases, inl, inr, length, length-append, take, All, arith, if◌then◌else◌,
  leb, replicate,
}
use idris2_ouc.Account.{id_matches}
use idris2_ouc.Monitor.{
  MonitoredContract, padded, same_contract, find_monitored, selector_exists, add_selector,
  change_at, fresh_contract, with_selector, register_monitor,
}

-- The first contract with this address and chain has the selector.
unfoldable pub is_watched : List ℕ → List ℕ → ℕ → List MonitoredContract → Bool
is_watched address selector chain_id [] = false
is_watched address selector chain_id (c ∷ s) =
    let later = is_watched address selector chain_id s in
    if same_contract address chain_id c then selector_exists selector c.selectors else later

-- At most 16 contracts with at most 8 selectors each.
pub record IsMonitor (s : List MonitoredContract) : Type 0 where
  pub contracts_fit : length s ≤ 16
  pub selectors_fit : All (λ c. length c.selectors ≤ 8) s

module _ (selector : List ℕ) where
  add_selector-fits :
      (c : MonitoredContract)
      → length c.selectors ≤ 8
      → length (add_selector selector c).selectors ≤ 8
  unfolding add_selector
  add_selector-fits c h = ground (arith, length-append c.selectors (padded 10 selector ∷ []))

  change_at-fits :
      (i : ℕ) (s : List MonitoredContract)
      → All (λ c. length c.selectors ≤ 8) s
      → (length (change_at i (add_selector selector) s) ≡ length s)
        × All (λ c. length c.selectors ≤ 8) (change_at i (add_selector selector) s)
  unfolding change_at
  change_at-fits i [] h = (refl, tt)
  change_at-fits zero (c ∷ s) h = (refl, (add_selector-fits c h.0, h.1))
  change_at-fits (suc i) (c ∷ s) h =
      let rest = change_at-fits i s h.1 in (ap suc rest.0, (h.0, rest.1))

  with_selector-IsMonitor :
      (i : ℕ) (s : List MonitoredContract) → IsMonitor s → IsMonitor (with_selector i selector s).1
  unfolding with_selector
  with_selector-IsMonitor i s h =
      let fits = change_at-fits i s h.selectors_fit in
      record { contracts_fit = omega (arith, fits.0, h.contracts_fit); selectors_fit = fits.1 }

-- The three branches of a registration.
module _ (address selector : List ℕ) (chain_id : ℕ) (s : List MonitoredContract) where
  register-found :
      (i : ℕ)
      → find_monitored address chain_id s ≡ some i
      → register_monitor address selector chain_id s ≡ with_selector i selector s
  unfolding register_monitor
  register-found i e = rw (register_monitor, e) refl

  register-full :
      find_monitored address chain_id s ≡ none
      → leb 16 (length s) ≡ true
      → (register_monitor address selector chain_id s).1 ≡ s
  unfolding register_monitor
  register-full e full = ground (arith, e, full)

  register-appended :
      find_monitored address chain_id s ≡ none
      → leb 16 (length s) ≡ false
      → register_monitor address selector chain_id s
        ≡ with_selector (length s) selector (s ++ (fresh_contract address chain_id ∷ []))
  unfolding register_monitor
  register-appended e room = ground (arith, e, room)

All-snoc :
    (P : MonitoredContract → Type 0) (s : List MonitoredContract) (c : MonitoredContract)
    → All P s
    → P c
    → All P (s ++ (c ∷ []))
All-snoc P [] c h p = (p, tt)
All-snoc P (x ∷ s) c h p = (h.0, All-snoc P s c h.1 p)

-- A registration keeps the bounds of the tables: at most 16 contracts, each with at most 8 selectors.
pub register-IsMonitor :
    (address selector : List ℕ) (chain_id : ℕ) (s : List MonitoredContract)
    → IsMonitor s
    → IsMonitor (register_monitor address selector chain_id s).1
register-IsMonitor address selector chain_id s h =
    elim (Option-cases (find_monitored address chain_id s)) [
      | inr (i, found) ↦
          rw (register-found address selector chain_id s i found)
            (with_selector-IsMonitor selector i s h)
      | inl missing ↦ elim (Bool-cases (leb 16 (length s))) [
        | inl full ↦ rw (register-full address selector chain_id s missing full) h
        | inr room ↦
            rw (register-appended address selector chain_id s missing room)
              (appended-IsMonitor room)
      ]
    ]
  where
    appended-IsMonitor :
        leb 16 (length s) ≡ false
        → IsMonitor
            (with_selector (length s) selector (s ++ (fresh_contract address chain_id ∷ []))).1
    appended-IsMonitor room =
        with_selector-IsMonitor selector (length s) (s ++ (fresh_contract address chain_id ∷ []))
          (record {
            contracts_fit = ground (arith, length-append s (fresh_contract address chain_id ∷ []));
            selectors_fit =
                All-snoc (λ c. length c.selectors ≤ 8) s (fresh_contract address chain_id)
                  h.selectors_fit (unfold fresh_contract in omega arith);
          })

matches_padded : (n k : ℕ) (text : List ℕ) → id_matches n (take n text ++ replicate k 0) text ≡ true
unfolding id_matches
matches_padded zero k text = refl
matches_padded (suc n) k [] = refl
matches_padded (suc n) k (c ∷ text) = ground (arith, matches_padded n k text)

module _ (address selector : List ℕ) (chain_id : ℕ) where
  exists_appended :
      (rows : List (List ℕ)) → selector_exists selector (rows ++ (padded 10 selector ∷ [])) ≡ true
  unfolding selector_exists padded
  exists_appended [] =
      ground (arith, matches_padded 10 (10 + 1 - length (take 10 selector)) selector)
  exists_appended (row ∷ rows) = ground (arith, exists_appended rows)

  exists_added :
      (c : MonitoredContract)
      → length c.selectors < 8
      → selector_exists selector (add_selector selector c).selectors ≡ true
  unfolding add_selector
  exists_added c h = ground (arith, exists_appended c.selectors)

  same-add_selector :
      (c : MonitoredContract)
      → same_contract address chain_id (add_selector selector c) ≡ same_contract address chain_id c
  unfolding same_contract add_selector
  same-add_selector c = ground arith

  watched_found :
      (s : List MonitoredContract) (i : ℕ)
      → All (λ c. length c.selectors < 8) s
      → find_monitored address chain_id s ≡ some i
      → is_watched address selector chain_id (change_at i (add_selector selector) s) ≡ true
  unfolding find_monitored is_watched change_at
  watched_found [] i h e = cc
  watched_found (c ∷ s) zero h e = ground (arith, same-add_selector c, exists_added c h.0)
  watched_found (c ∷ s) (suc i) h e = ground (arith, watched_found s i h.1)

  find_fresh :
      (s : List MonitoredContract)
      → find_monitored address chain_id s ≡ none
      → find_monitored address chain_id (s ++ (fresh_contract address chain_id ∷ []))
        ≡ some (length s)
  unfolding find_monitored fresh_contract same_contract padded
  find_fresh [] e = ground (arith, matches_padded 42 (42 + 1 - length (take 42 address)) address)
  find_fresh (c ∷ s) e = ground (arith, find_fresh s)

-- Where the table has a free slot and every contract in it room for one more selector, the comparisons
-- of the code find the address, the chain and the selector in the table after the registration.
pub register-is_watched :
    (address selector : List ℕ) (chain_id : ℕ) (s : List MonitoredContract)
    → length s < 16
    → All (λ c. length c.selectors < 8) s
    → is_watched address selector chain_id (register_monitor address selector chain_id s).1 ≡ true
unfolding with_selector
register-is_watched address selector chain_id s room h =
    elim (Option-cases (find_monitored address chain_id s)) [
      | inr (i, found) ↦
          rw (register-found address selector chain_id s i found)
            (watched_found address selector chain_id s i h found)
      | inl missing ↦ rw (register-appended address selector chain_id s missing (ground arith)) (
          watched_found address selector chain_id (s ++ (fresh_contract address chain_id ∷ []))
            (length s)
            (All-snoc (λ c. length c.selectors < 8) s (fresh_contract address chain_id) h
              (unfold fresh_contract in omega arith))
            (find_fresh address selector chain_id s missing))
    ]
