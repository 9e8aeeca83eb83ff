-- ===== src/Monitor.antt =====
-- The registration of contracts for monitoring in lib/ic0/canister_entry.c, on the arguments that
-- Monitor.Arguments reads. `g_monitored_contracts` is the list of its first `g_monitored_count` slots, and the
-- selectors of a slot are its first `selector_count` rows: the other ones are as the program starts,
-- all zero. The implementations, which no code writes but for an empty text, are left out.
pub mod Register
pub mod Watched
pub mod Status
pub mod Poll
pub mod Arguments
mod Tests
use idris2_ouc.Base.{
  ℕ, zero, suc, ◌+◌, ◌-◌, ◌/◌, ◌%◌, List, [], ◌∷◌, ◌++◌, Option, none, some, Bool, true, false,
  ◌&&◌, not, ltb, leb, ◌==◌, if◌then◌else◌, length, take, replicate, get_elem?,
}
use idris2_ouc.Account.{id_matches}
use idris2_ouc.Candid.{reply_candid_text}

abbrev pub max_monitored_contracts : ℕ
max_monitored_contracts = 16

abbrev pub max_monitored_selectors : ℕ
max_monitored_selectors = 8

pub record MonitoredContract : Type 0 where
  pub dictionary : List ℕ
  pub selectors : List (List ℕ)
  pub chain_id : ℕ
  pub last_checked : ℕ
  pub active : Bool

-- `char dict_addr[43] = {0}` and `char selector[11] = {0}` behind the copy of `n` characters at most.
unfoldable pub padded : ℕ → List ℕ → List ℕ
padded n text = take n text ++ replicate (n + 1 - length (take n text)) 0

-- The test of the first loop on one slot; an address is its characters, with no NUL.
unfoldable pub same_contract : List ℕ → ℕ → MonitoredContract → Bool
same_contract address chain_id c = id_matches 42 c.dictionary address && c.chain_id == chain_id

unfoldable pub find_monitored : List ℕ → ℕ → List MonitoredContract → Option ℕ
find_monitored address chain_id [] = none
find_monitored address chain_id (c ∷ s) =
    let later = find_monitored address chain_id s in
    if same_contract address chain_id c
    then some 0
    else elim later [ none ↦ none | some i ↦ some (suc i) ]

-- `sel_exists`.
unfoldable pub selector_exists : List ℕ → List (List ℕ) → Bool
selector_exists selector [] = false
selector_exists selector (row ∷ rows) =
    let later = selector_exists selector rows in if id_matches 10 row selector then true else later

unfoldable pub add_selector : List ℕ → MonitoredContract → MonitoredContract
add_selector selector c =
    if not (selector_exists selector c.selectors)
      && ltb (length c.selectors) max_monitored_selectors
    then record c { selectors = c.selectors ++ (padded 10 selector ∷ []) }
    else c

unfoldable pub change_at :
    ℕ → (MonitoredContract → MonitoredContract) → List MonitoredContract → List MonitoredContract
change_at i f [] = []
change_at zero f (c ∷ s) = f c ∷ s
change_at (suc i) f (c ∷ s) = c ∷ change_at i f s

unfoldable pub fresh_contract : List ℕ → ℕ → MonitoredContract
fresh_contract address chain_id = record {
  dictionary = padded 42 address;
  selectors = [];
  chain_id = chain_id;
  last_checked = 0;
  active = true;
}

abbrev pub max_reached_text : List ℕ
max_reached_text =
    b'{' ∷ b'"' ∷ b'e' ∷ b'r' ∷ b'r' ∷ b'o' ∷ b'r' ∷ b'"' ∷ b':' ∷ b'"' ∷ b'm' ∷ b'a' ∷ b'x' ∷ b'_'
    ∷ b'c' ∷ b'o' ∷ b'n' ∷ b't' ∷ b'r' ∷ b'a' ∷ b'c' ∷ b't' ∷ b's' ∷ b'_' ∷ b'r' ∷ b'e' ∷ b'a'
    ∷ b'c' ∷ b'h' ∷ b'e' ∷ b'd' ∷ b'"' ∷ b'}' ∷ []

abbrev pub registered_text : List ℕ
registered_text =
    b'{' ∷ b'"' ∷ b's' ∷ b't' ∷ b'a' ∷ b't' ∷ b'u' ∷ b's' ∷ b'"' ∷ b':' ∷ b'"' ∷ b'r' ∷ b'e' ∷ b'g'
    ∷ b'i' ∷ b's' ∷ b't' ∷ b'e' ∷ b'r' ∷ b'e' ∷ b'd' ∷ b'"' ∷ b',' ∷ b'"' ∷ b'c' ∷ b'o' ∷ b'n'
    ∷ b't' ∷ b'r' ∷ b'a' ∷ b'c' ∷ b't' ∷ b'I' ∷ b'n' ∷ b'd' ∷ b'e' ∷ b'x' ∷ b'"' ∷ b':' ∷ []

abbrev pub selector_count_text : List ℕ
selector_count_text =
    b',' ∷ b'"' ∷ b's' ∷ b'e' ∷ b'l' ∷ b'e' ∷ b'c' ∷ b't' ∷ b'o' ∷ b'r' ∷ b'C' ∷ b'o' ∷ b'u' ∷ b'n'
    ∷ b't' ∷ b'"' ∷ b':' ∷ []

abbrev pub total_text : List ℕ
total_text =
    b',' ∷ b'"' ∷ b't' ∷ b'o' ∷ b't' ∷ b'a' ∷ b'l' ∷ b'C' ∷ b'o' ∷ b'n' ∷ b't' ∷ b'r' ∷ b'a' ∷ b'c'
    ∷ b't' ∷ b's' ∷ b'"' ∷ b':' ∷ []

-- `if (n >= 10) ... '0' + (n / 10)` and `'0' + (n % 10)`.
unfoldable pub two_digits : ℕ → List ℕ
two_digits n = (if leb 10 n then (48 + n / 10) ∷ [] else []) ++ ((48 + n % 10) ∷ [])

unfoldable pub selector_count_at : ℕ → List MonitoredContract → ℕ
selector_count_at i s = elim (get_elem? s i) [ none ↦ 0 | some c ↦ length c.selectors ]

unfoldable pub registered_response : ℕ → List MonitoredContract → List ℕ
registered_response i s =
    registered_text
    ++ (two_digits i
        ++ (selector_count_text
            ++ ((48 + selector_count_at i s) ∷ total_text
                ++ (two_digits (length s) ++ (b'}' ∷ [])))))

-- The part that both branches share: the selector is added to slot `i`.
unfoldable pub with_selector : ℕ → List ℕ → List MonitoredContract → List ℕ × List MonitoredContract
with_selector i selector s0 =
    let s = change_at i (add_selector selector) s0 in
    (reply_candid_text (registered_response i s), s)

-- `canister_update_registerMonitor` behind the parsing of its arguments.
unfoldable pub register_monitor :
    List ℕ → List ℕ → ℕ → List MonitoredContract → List ℕ × List MonitoredContract
register_monitor address selector chain_id s = elim (find_monitored address chain_id s) [
  | some i ↦ with_selector i selector s
  | none ↦
      if leb max_monitored_contracts (length s)
      then (reply_candid_text max_reached_text, s)
      else with_selector (length s) selector (s ++ (fresh_contract address chain_id ∷ []))
]
