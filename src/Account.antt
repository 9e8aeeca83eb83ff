-- ===== src/Account.antt =====
-- The protocol accounts of lib/ic0/ic0_stubs.c: donations in cycles and the tier that they pay for.
-- `protocol_accounts` is the list of its first `protocol_account_count` slots: the others are as the
-- program starts, all zero. A protocol id is a C string: its characters, with no NUL.
-- The time, and the cycles of a message, come from the system. Debug output is left out.
pub mod Slots
pub mod Donate
pub mod Tier
pub mod Cycles
pub mod Other
mod Tests
use idris2_ouc.Base.{
  ℕ, zero, suc, ◌+◌, ◌-◌, ◌*◌, ◌<◌, List, [], ◌∷◌, ◌++◌, Option, none, some, Bool, true, false,
  ◌&&◌, bit_or, ltb, leb, ◌==◌, if◌then◌else◌, length, take, replicate, get_or, get_elem?,
}
use idris2_ouc.Word.{u64}

abbrev pub max_protocol_accounts : ℕ
max_protocol_accounts = 256

abbrev pub protocol_id_len : ℕ
protocol_id_len = 42

pub record Account : Type 0 where
  pub protocol_id : List ℕ
  pub balance : ℕ
  pub tier : ℕ
  pub last_sync_block : ℕ
  pub expires_at : ℕ
  pub active : Bool

-- `for (j = 0; j < PROTOCOL_ID_LEN && protocol_id[j]; j++)` with `n` rounds left: no character of the
-- id differs from the slot's. The id's NUL is the end of its list.
unfoldable pub id_matches : ℕ → List ℕ → List ℕ → Bool
id_matches zero slot id = true
id_matches (suc n) slot [] = true
id_matches (suc n) [] (c ∷ id) = false
id_matches (suc n) (b ∷ slot) (c ∷ id) = b == c && id_matches n slot id

-- The loop over the slots, at index `i`.
unfoldable pub find_loop : List ℕ → List Account → ℕ → Option ℕ
find_loop id [] i = none
find_loop id (a ∷ rest) i =
    let more = find_loop id rest (i + 1) in
    if a.active && id_matches protocol_id_len a.protocol_id id then some i else more

unfoldable pub find_protocol_account : List ℕ → List Account → Option ℕ
find_protocol_account id s = find_loop id s 0

-- The slot's 43 bytes after the copy: the first 42 characters of the id, and zeros.
unfoldable pub copied_id : List ℕ → List ℕ
copied_id id = take protocol_id_len id ++ replicate (43 - length (take protocol_id_len id)) 0

unfoldable pub fresh_account : List ℕ → Account
fresh_account id = record {
  protocol_id = copied_id id;
  balance = 0;
  tier = 0;
  last_sync_block = 0;
  expires_at = 0;
  active = true;
}

unfoldable pub create_protocol_account : List ℕ → List Account → Option (ℕ × List Account)
create_protocol_account id s =
    if leb max_protocol_accounts (length s)
    then none
    else some (length s, s ++ (fresh_account id ∷ []))

unfoldable pub calculate_tier : ℕ → ℕ
calculate_tier balance =
    if leb 4500000000000 balance
    then 3
    else if leb 300000000000 balance
    then 2
    else if leb 80000000000 balance
    then 1
    else 0

-- 30 days in nanoseconds.
abbrev pub tier_period : ℕ
tier_period = 2592000000000000

-- What `ouc_donate` does to the slot that it found or made.
unfoldable pub credit : ℕ → ℕ → Account → Account
credit amount now a =
    let balance = u64 (a.balance + amount) in
    let new_tier = calculate_tier balance in
    if ltb a.tier new_tier
    then record a { balance = balance; tier = new_tier; expires_at = u64 (now + tier_period) }
    else record a { balance = balance }

-- A write to the slot at an index.
unfoldable pub update_at : ℕ → (Account → Account) → List Account → List Account
update_at i f [] = []
update_at zero f (a ∷ s) = f a ∷ s
update_at (suc i) f (a ∷ s) = a ∷ update_at i f s

unfoldable pub balance_at : ℕ → List Account → ℕ
balance_at i s = elim (get_elem? s i) [ none ↦ 0 | some a ↦ a.balance ]

unfoldable pub credit_at : ℕ → ℕ → ℕ → List Account → ℕ × List Account
credit_at i amount now s = let s' = update_at i (credit amount now) s in (balance_at i s', s')

-- The returned balance and the accounts.
unfoldable pub ouc_donate : List ℕ → ℕ → ℕ → List Account → ℕ × List Account
ouc_donate id amount now s = elim (find_protocol_account id s) [
  | some i ↦ credit_at i amount now s
  | none ↦ elim (create_protocol_account id s) [
    | none ↦ (0, s)
    | some (i, s') ↦ credit_at i amount now s'
  ]
]

unfoldable pub ouc_get_protocol_balance : List ℕ → List Account → ℕ
ouc_get_protocol_balance id s = elim (find_protocol_account id s) [
  | none ↦ 0
  | some i ↦ balance_at i s
]

unfoldable pub ouc_get_protocol_tier : List ℕ → List Account → ℕ
ouc_get_protocol_tier id s = elim (find_protocol_account id s) [
  | none ↦ 0
  | some i ↦ elim (get_elem? s i) [ none ↦ 0 | some a ↦ a.tier ]
]

unfoldable pub ouc_get_protocol_count : List Account → ℕ
ouc_get_protocol_count s = length s

-- `for (i = 7; i >= 0; i--) v = (v << 8) | buf[i]`, with the rounds `n - 1, …, 0` left.
unfoldable pub low64_loop : ℕ → List ℕ → ℕ → ℕ
low64_loop zero buf v = v
low64_loop (suc n) buf v = low64_loop n buf (bit_or (get_or buf n 0) (u64 (v * 256)))

unfoldable pub low64 : List ℕ → ℕ
low64 buf = low64_loop 8 buf 0

-- `available` is what `ic0_msg_cycles_available128` writes, and `accept` gives what
-- `ic0_msg_cycles_accept128` writes when it is asked for at most this much: 16 bytes each.
unfoldable pub ouc_accept_and_donate :
    List ℕ → (ℕ → List ℕ) → List ℕ → ℕ → List Account → ℕ × List Account
ouc_accept_and_donate available accept id now s =
    ouc_donate id (low64 (accept (low64 available))) now s
