-- ===== src/Handlers.antt =====
-- Entry points of lib/ic0/canister_entry.c that answer from the C state: proposals and protocol
-- accounts; and the counters of lib/ic0/ic0_stubs.c. A message is its list of bytes, and a handler
-- gives the bytes of its reply. `none`: an int32_t overflow or a shift that C leaves undefined.
pub mod Decimal
pub mod Proposals
pub mod Donations
mod Tests
use idris2_ouc.Base.{
  ℕ, zero, suc, ◌+◌, ◌-◌, ◌/◌, ◌%◌, ◌<◌, List, [], ◌∷◌, ◌++◌, Option, none, some, ◌>>=◌, ltb, leb,
  ◌==◌, if◌then◌else◌, take,
}
use idris2_ouc.Candid.{
  TextArg, parse_candid_nat_arg, parse_candid_text_arg, reply_candid_text, reply_candid_nat,
}
use idris2_ouc.Account.{
  Account, ouc_accept_and_donate, ouc_get_protocol_balance, ouc_get_protocol_tier,
  ouc_get_protocol_count,
}

-- `ouc_proposal_count` and `ouc_auditor_count`, which start at 0 and are not set below it, and
-- `ouc_state_initialized`.
pub record Counters : Type 0 where
  pub proposals : ℕ
  pub auditors : ℕ
  pub state_initialized : ℕ

unfoldable pub ouc_get_proposal_count : Counters → ℕ
ouc_get_proposal_count c = c.proposals

-- The id of the new proposal, and the counters.
unfoldable pub ouc_inc_proposal_count : Counters → Option (ℕ × Counters)
ouc_inc_proposal_count c =
    if ltb c.proposals 2147483647
    then some (c.proposals, record c { proposals = c.proposals + 1 })
    else none

unfoldable pub ouc_get_auditor_count : Counters → ℕ
ouc_get_auditor_count c = c.auditors

-- A count from 0 to 2^31 - 1.
unfoldable pub ouc_set_auditor_count : ℕ → Counters → Counters
ouc_set_auditor_count value c = record c { auditors = value }

-- The new count, and the counters.
unfoldable pub ouc_inc_auditor_count : Counters → Option (ℕ × Counters)
ouc_inc_auditor_count c =
    if ltb c.auditors 2147483647
    then some (c.auditors + 1, record c { auditors = c.auditors + 1 })
    else none

-- `while (id > 0) { digits[dlen++] = '0' + id % 10; id /= 10; }` and the loop that turns them round.
unfoldable pub digits_loop : ℕ → ℕ → List ℕ → List ℕ
digits_loop zero id acc = acc
digits_loop (suc fuel) id acc =
    let more = digits_loop fuel (id / 10) ((48 + id % 10) ∷ acc) in if id == 0 then acc else more

-- 20 digits are enough for a uint64_t.
unfoldable pub decimal : ℕ → List ℕ
decimal id = if id == 0 then 48 ∷ [] else digits_loop 20 id []

-- The digits that `canister_update_submitProposal` writes.
unfoldable pub last_digits : ℕ → List ℕ
last_digits id =
    (if leb 100 id then (48 + id / 100 % 10) ∷ [] else [])
    ++ ((if leb 10 id then (48 + id / 10 % 10) ∷ [] else []) ++ ((48 + id % 10) ∷ []))

abbrev pub id_text : List ℕ
id_text = b'{' ∷ b'"' ∷ b'i' ∷ b'd' ∷ b'"' ∷ b':' ∷ []

abbrev pub pending_text : List ℕ
pending_text =
    b',' ∷ b'"' ∷ b's' ∷ b't' ∷ b'a' ∷ b't' ∷ b'u' ∷ b's' ∷ b'"' ∷ b':' ∷ b'"' ∷ b'p' ∷ b'e' ∷ b'n'
    ∷ b'd' ∷ b'i' ∷ b'n' ∷ b'g' ∷ b'"' ∷ b'}' ∷ []

abbrev pub not_found_text : List ℕ
not_found_text =
    b'{' ∷ b'"' ∷ b'e' ∷ b'r' ∷ b'r' ∷ b'o' ∷ b'r' ∷ b'"' ∷ b':' ∷ b'"' ∷ b'n' ∷ b'o' ∷ b't' ∷ b'_'
    ∷ b'f' ∷ b'o' ∷ b'u' ∷ b'n' ∷ b'd' ∷ b'"' ∷ b'}' ∷ []

abbrev pub invalid_id_text : List ℕ
invalid_id_text =
    b'{' ∷ b'"' ∷ b'e' ∷ b'r' ∷ b'r' ∷ b'o' ∷ b'r' ∷ b'"' ∷ b':' ∷ b'"' ∷ b'i' ∷ b'n' ∷ b'v' ∷ b'a'
    ∷ b'l' ∷ b'i' ∷ b'd' ∷ b'_' ∷ b'p' ∷ b'r' ∷ b'o' ∷ b't' ∷ b'o' ∷ b'c' ∷ b'o' ∷ b'l' ∷ b'_'
    ∷ b'i' ∷ b'd' ∷ b'"' ∷ b'}' ∷ []

abbrev pub protocol_text : List ℕ
protocol_text =
    b'{' ∷ b'"' ∷ b'p' ∷ b'r' ∷ b'o' ∷ b't' ∷ b'o' ∷ b'c' ∷ b'o' ∷ b'l' ∷ b'I' ∷ b'd' ∷ b'"' ∷ b':'
    ∷ b'"' ∷ []

abbrev pub balance_text : List ℕ
balance_text =
    b'"' ∷ b',' ∷ b'"' ∷ b'b' ∷ b'a' ∷ b'l' ∷ b'a' ∷ b'n' ∷ b'c' ∷ b'e' ∷ b'"' ∷ b':' ∷ []

abbrev pub tier_text : List ℕ
tier_text = b',' ∷ b'"' ∷ b't' ∷ b'i' ∷ b'e' ∷ b'r' ∷ b'"' ∷ b':' ∷ []

unfoldable pub canister_query_get_proposal : List ℕ → Counters → Option (List ℕ)
canister_query_get_proposal msg c = do
  proposal_id ← parse_candid_nat_arg msg
  some (
      reply_candid_text (
        if ltb proposal_id (ouc_get_proposal_count c)
        then id_text ++ (decimal proposal_id ++ pending_text)
        else not_found_text))

unfoldable pub canister_query_get_proposal_count : Counters → List ℕ
canister_query_get_proposal_count c = reply_candid_nat (ouc_get_proposal_count c)

unfoldable pub canister_query_get_auditor_count : Counters → List ℕ
canister_query_get_auditor_count c = reply_candid_nat (ouc_get_auditor_count c)

-- The length that the parser returns is never negative, so the error reply is never sent.
unfoldable pub canister_update_submit_proposal :
    List ℕ → TextArg → Counters → Option (List ℕ × TextArg × Counters)
canister_update_submit_proposal msg t0 c0 = do
  t ← parse_candid_text_arg msg t0
  (new_id, c) ← ouc_inc_proposal_count c0
  some (reply_candid_text (id_text ++ (last_digits new_id ++ (b'}' ∷ []))), t, c)

-- The characters of `text_arg_buf` before its NUL.
unfoldable pub text_chars : List ℕ → List ℕ
text_chars [] = []
text_chars (x ∷ xs) = if x == 0 then [] else x ∷ text_chars xs

-- The response for an id, a balance and a tier. The copy of the id stops where the response has 200
-- characters.
unfoldable pub donate_response : List ℕ → ℕ → ℕ → List ℕ
donate_response id balance tier =
    protocol_text
    ++ (take 185 id
        ++ (balance_text ++ (decimal balance ++ (tier_text ++ ((48 + tier) ∷ b'}' ∷ [])))))

-- `available` and `accept` are the system's answers about cycles, and `now` is its time.
unfoldable pub canister_update_donate :
    List ℕ
    → (ℕ → List ℕ)
    → ℕ
    → List ℕ
    → TextArg
    → List Account
    → Option (List ℕ × TextArg × List Account)
canister_update_donate available accept now msg t0 s0 = do
  t ← parse_candid_text_arg msg t0
  let id = text_chars t.buf
  let (new_balance, s) = ouc_accept_and_donate available accept id now s0
  if t.len == 0
      then some (reply_candid_text invalid_id_text, t, s0)
      else some
          (reply_candid_text (donate_response id new_balance (ouc_get_protocol_tier id s)), t, s)

unfoldable pub canister_query_get_protocol_balance :
    List ℕ → TextArg → List Account → Option (List ℕ × TextArg)
canister_query_get_protocol_balance msg t0 s = do
  t ← parse_candid_text_arg msg t0
  if t.len == 0
      then some (reply_candid_nat 0, t)
      else some (reply_candid_nat (ouc_get_protocol_balance (text_chars t.buf) s), t)

unfoldable pub canister_query_get_protocol_tier :
    List ℕ → TextArg → List Account → Option (List ℕ × TextArg)
canister_query_get_protocol_tier msg t0 s = do
  t ← parse_candid_text_arg msg t0
  if t.len == 0
      then some (reply_candid_nat 0, t)
      else some (reply_candid_nat (ouc_get_protocol_tier (text_chars t.buf) s), t)

unfoldable pub canister_query_get_protocol_count : List Account → List ℕ
canister_query_get_protocol_count s = reply_candid_nat (ouc_get_protocol_count s)
