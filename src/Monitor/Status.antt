-- ===== src/Monitor/Status.antt =====
-- `canister_query_getMonitoringStatus` of lib/ic0/canister_entry.c. No code changes
-- `g_detected_changes` and `g_last_monitor_heartbeat`, which start at 0.
pub mod Fits
use idris2_ouc.Base.{
  ℕ, ◌+◌, ◌-◌, ◌/◌, ◌%◌, List, [], ◌∷◌, ◌++◌, Bool, true, false, ltb, leb, if◌then◌else◌, length,
  take,
}
use idris2_ouc.Candid.{reply_candid_text}
use idris2_ouc.Handlers.{decimal, text_chars}
use idris2_ouc.Monitor.{MonitoredContract, two_digits}

abbrev pub detected_changes : ℕ
detected_changes = 0

abbrev pub last_monitor_heartbeat : ℕ
last_monitor_heartbeat = 0

abbrev pub monitored_text : List ℕ
monitored_text =
    b'{' ∷ b'"' ∷ b'm' ∷ b'o' ∷ b'n' ∷ b'i' ∷ b't' ∷ b'o' ∷ b'r' ∷ b'e' ∷ b'd' ∷ b'C' ∷ b'o' ∷ b'n'
    ∷ b't' ∷ b'r' ∷ b'a' ∷ b'c' ∷ b't' ∷ b's' ∷ b'"' ∷ b':' ∷ []

abbrev pub changes_text : List ℕ
changes_text =
    b',' ∷ b'"' ∷ b'd' ∷ b'e' ∷ b't' ∷ b'e' ∷ b'c' ∷ b't' ∷ b'e' ∷ b'd' ∷ b'C' ∷ b'h' ∷ b'a' ∷ b'n'
    ∷ b'g' ∷ b'e' ∷ b's' ∷ b'"' ∷ b':' ∷ []

abbrev pub heartbeat_text : List ℕ
heartbeat_text =
    b',' ∷ b'"' ∷ b'l' ∷ b'a' ∷ b's' ∷ b't' ∷ b'H' ∷ b'e' ∷ b'a' ∷ b'r' ∷ b't' ∷ b'b' ∷ b'e' ∷ b'a'
    ∷ b't' ∷ b'"' ∷ b':' ∷ []

abbrev pub contracts_text : List ℕ
contracts_text =
    b',' ∷ b'"' ∷ b'c' ∷ b'o' ∷ b'n' ∷ b't' ∷ b'r' ∷ b'a' ∷ b'c' ∷ b't' ∷ b's' ∷ b'"' ∷ b':' ∷ b'['
    ∷ []

abbrev pub dictionary_field : List ℕ
dictionary_field =
    b'"' ∷ b'd' ∷ b'i' ∷ b'c' ∷ b't' ∷ b'i' ∷ b'o' ∷ b'n' ∷ b'a' ∷ b'r' ∷ b'y' ∷ b'"' ∷ b':' ∷ b'"'
    ∷ []

abbrev pub chain_text : List ℕ
chain_text = b',' ∷ b'"' ∷ b'c' ∷ b'h' ∷ b'a' ∷ b'i' ∷ b'n' ∷ b'I' ∷ b'd' ∷ b'"' ∷ b':' ∷ []

abbrev pub selectors_text : List ℕ
selectors_text =
    b',' ∷ b'"' ∷ b's' ∷ b'e' ∷ b'l' ∷ b'e' ∷ b'c' ∷ b't' ∷ b'o' ∷ b'r' ∷ b's' ∷ b'"' ∷ b':' ∷ []

-- The last five digits of an int32_t; of a number below zero one character.
unfoldable pub chain_digits : ℕ → List ℕ
chain_digits cid =
    if ltb cid 2147483648
    then (if leb 10000 cid then (48 + cid / 10000 % 10) ∷ [] else [])
      ++ ((if leb 1000 cid then (48 + cid / 1000 % 10) ∷ [] else [])
          ++ ((if leb 100 cid then (48 + cid / 100 % 10) ∷ [] else [])
              ++ ((if leb 10 cid then (48 + cid / 10 % 10) ∷ [] else [])
                  ++ ((48 + cid % 10) ∷ []))))
    else (48 - (4294967296 - cid) % 10) ∷ []

-- The characters of the address before its NUL, 42 at most.
abbrev pub dictionary_chars : MonitoredContract → List ℕ
dictionary_chars c = take 42 (text_chars c.dictionary)

unfoldable pub contract_json : MonitoredContract → List ℕ
contract_json c =
    b'{' ∷ dictionary_field
    ++ (dictionary_chars c
        ++ (b'"' ∷ chain_text
            ++ (chain_digits c.chain_id
                ++ (selectors_text ++ ((48 + length c.selectors) ∷ b'}' ∷ [])))))

-- The loop over the contracts, at the first one or behind it, while the response has fewer than 1900
-- characters.
unfoldable pub contracts_loop : ℕ → Bool → List MonitoredContract → List ℕ
contracts_loop len first [] = []
contracts_loop len first (c ∷ s) =
    let entry = (if first then [] else b',' ∷ []) ++ contract_json c in
    let more = contracts_loop (len + length entry) false s in
    if ltb len 1900 then entry ++ more else []

unfoldable pub status_start : List MonitoredContract → List ℕ
status_start s =
    monitored_text
    ++ (two_digits (length s)
        ++ (changes_text
            ++ (two_digits detected_changes
                ++ (heartbeat_text ++ (decimal last_monitor_heartbeat ++ contracts_text)))))

unfoldable pub monitoring_status : List MonitoredContract → List ℕ
monitoring_status s =
    let start = status_start s in
    start ++ (contracts_loop (length start) true s ++ (b']' ∷ b'}' ∷ []))

unfoldable pub canister_query_get_monitoring_status : List MonitoredContract → List ℕ
canister_query_get_monitoring_status s = reply_candid_text (monitoring_status s)
