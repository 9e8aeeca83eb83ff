-- ===== src/Monitor/Status/Fits.antt =====
-- The status in lib/ic0/canister_entry.c lists every contract, and fits its buffer.
use idris2_ouc.Base.{
  ℕ, suc, ◌+◌, ◌*◌, ◌≤◌, ◌<◌, ◌≡◌, refl, ap, List, [], ◌∷◌, ◌++◌, Bool, true, false, length,
  length-append, length-take, arith, if◌then◌else◌,
}
use idris2_ouc.Handlers.{decimal, text_chars}
use idris2_ouc.Monitor.{MonitoredContract, two_digits}
use idris2_ouc.Monitor.Register.{IsMonitor}
use idris2_ouc.Monitor.Status.{
  chain_digits, contract_json, contracts_loop, status_start, monitoring_status, chain_text,
  selectors_text, dictionary_chars,
}

length-chain_digits : (cid : ℕ) → length (chain_digits cid) ≤ 5
unfolding chain_digits
length-chain_digits cid = ground arith

length-contract_json : (c : MonitoredContract) → length (contract_json c) ≤ 89
unfolding contract_json
length-contract_json c =
    let chain = chain_digits c.chain_id in
    let end = (48 + length c.selectors) ∷ b'}' ∷ [] in
    let rest = chain ++ (selectors_text ++ end) in
    omega (
      arith,
      length-append (dictionary_chars c) (b'"' ∷ chain_text ++ rest),
      length-take 42 (text_chars c.dictionary),
      length-append chain (selectors_text ++ end),
      length-chain_digits c.chain_id,
    )

-- The contracts with commas between them.
unfoldable pub listed : Bool → List MonitoredContract → List ℕ
listed first [] = []
listed first (c ∷ s) = (if first then [] else b',' ∷ []) ++ (contract_json c ++ listed false s)

length-listed :
    (first : Bool) (s : List MonitoredContract) → length (listed first s) ≤ 90 * length s
unfolding listed
length-listed first [] = omega arith
length-listed true (c ∷ s) = omega (
  arith,
  length-append (contract_json c) (listed false s),
  length-contract_json c,
  length-listed false s,
)
length-listed false (c ∷ s) = omega (
  arith,
  length-append (contract_json c) (listed false s),
  length-contract_json c,
  length-listed false s,
)

loop-listed :
    (len : ℕ) (first : Bool) (s : List MonitoredContract)
    → len + 90 * length s < 1900
    → contracts_loop len first s ≡ listed first s
unfolding contracts_loop listed
loop-listed len first [] h = refl
loop-listed len true (c ∷ s) h =
    ground (arith, length-contract_json c, loop-listed (len + length (contract_json c)) false s)
loop-listed len false (c ∷ s) h =
    ground
      (arith, length-contract_json c, loop-listed (len + suc (length (contract_json c))) false s)

length-status_start : (s : List MonitoredContract) → length s ≤ 16 → length (status_start s) ≤ 80
unfolding status_start two_digits decimal
length-status_start s h = ground arith

-- The status names every monitored contract once, in the order of the table, and fits the buffer of
-- 2048 bytes with its NUL. (The bounds of the table hold.)
pub status-fits :
    (s : List MonitoredContract)
    → IsMonitor s
    → (monitoring_status s ≡ status_start s ++ (listed true s ++ (b']' ∷ b'}' ∷ [])))
      × (length (monitoring_status s) < 2048)
unfolding monitoring_status
status-fits s h =
    let size = length-status_start s h.contracts_fit in
    let end : List ℕ = b']' ∷ b'}' ∷ [] in
    let e = loop-listed (length (status_start s)) true s (omega (arith, size, h.contracts_fit)) in
    let same = ap (λ l. status_start s ++ (l ++ end)) e in
    (
      same,
      omega (
        arith,
        ap length same,
        length-append (status_start s) (listed true s ++ end),
        length-append (listed true s) end,
        length-listed true s,
        size,
        h.contracts_fit,
      ),
    )
