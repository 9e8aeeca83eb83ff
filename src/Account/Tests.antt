-- ===== src/Account/Tests.antt =====
-- The theorems on accounts at concrete ids.
use idris2_ouc.Base.{ℕ, ◌≡◌, ◌≢◌, refl, ap, List, [], ◌∷◌, some, arith, replicate, get_or}
use idris2_ouc.Account.{
  Account, fresh_account, copied_id, find_protocol_account, find_loop, id_matches, ouc_donate,
  ouc_get_protocol_balance, ouc_get_protocol_count,
}
use idris2_ouc.Account.Tier.{IsLedger, donate-IsLedger}
use idris2_ouc.Account.Other.{donate-other}

abbrev alice : List ℕ
alice = replicate 42 65

abbrev bob : List ℕ
bob = replicate 42 66

abbrev bank : List Account
bank = fresh_account alice ∷ []

alice-ne-bob : alice ≢ bob
alice-ne-bob = λ e. omega (arith, ap (λ l. get_or l 0 0) e)

donate-other_example :
    ouc_get_protocol_balance bob (ouc_donate alice 500 0 bank).1 ≡ ouc_get_protocol_balance bob bank
donate-other_example = donate-other alice bob 500 0 bank refl refl alice-ne-bob

alice_found : find_protocol_account alice bank ≡ some 0
unfolding find_protocol_account find_loop id_matches fresh_account copied_id
alice_found = refl

empty-IsLedger : IsLedger []
unfolding ouc_get_protocol_count
empty-IsLedger = record { accounts = tt; bounded = omega arith }

donate-IsLedger_example : IsLedger (ouc_donate alice 500 0 []).1
donate-IsLedger_example = donate-IsLedger alice 500 0 [] empty-IsLedger
