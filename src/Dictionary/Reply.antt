-- ===== src/Dictionary/Reply.antt =====
-- What lib/ic0/canister_entry.c answers of the reply to a dictionary query.
use idris2_ouc.Base.{
  ℕ, zero, suc, ◌-◌, ◌≤◌, ◌≡◌, ◌∙◌, refl, sym, ap, List, [], ◌∷◌, ◌++◌, some, true, length, drop,
  arith, All, length-append, ltb, if◌then◌else◌,
}
use idris2_ouc.Base.Split.{take_all, drop-append}
use idris2_ouc.Candid.{reply_candid_text}
use idris2_ouc.EvmLogs.{find_after}
use idris2_ouc.EvmLogs.Fields.{misses, skip_lem, found_lem}
use idris2_ouc.Dictionary.{
  Query, result_name, hex_prefix, is_hex, hex_run, address_of, implementation_json,
  find_implementation, dict_query_reply_callback,
}

hex_run-append :
    (n : ℕ) (xs post : List ℕ)
    → All (λ c. is_hex c ≡ true) xs
    → length xs ≤ n
    → hex_run n (xs ++ (b'"' ∷ post)) ≡ xs
unfolding hex_run is_hex
hex_run-append zero [] post h short = refl
hex_run-append zero (x ∷ xs) post h short = absurd (omega arith)
hex_run-append (suc n) [] post h short = refl
hex_run-append (suc n) (x ∷ xs) post h short =
    rw h.0 (ap (λ r. x ∷ r) (hex_run-append n xs post h.1 (omega arith)))

find_lem :
    (buf bs cs : List ℕ)
    → find_after 20 result_name (drop 10 buf) ≡ some bs
    → find_after 2 hex_prefix bs ≡ some cs
    → find_implementation buf ≡ some (address_of (hex_run 66 (hex_prefix ++ cs)))
unfolding find_implementation
find_lem buf bs cs e1 e2 = rw (find_implementation, e1, e2) refl

address_word :
    (pad address : List ℕ)
    → length pad ≡ 24
    → length address ≡ 40
    → address_of (hex_prefix ++ (pad ++ address)) ≡ address
unfolding address_of
address_word pad address hp ha =
    ap (λ n. drop n (hex_prefix ++ (pad ++ address)))
      {x = if ltb 42 (length (hex_prefix ++ (pad ++ address)))
        then length (hex_prefix ++ (pad ++ address)) - 40
        else 2}
      {y = suc (suc (length pad))} (ground (arith, hp, ha, length-append pad address))
    ∙ drop-append pad address

-- The address in a reply. Where the word behind the first "result" and the first 0x after it has 64
-- hexadecimal digits in front of a quotation mark, the answer names its last 40 digits, with
-- the stored address and selector. (A reply of at most 4096 bytes, "result" and its word
-- behind the tenth byte.)
pub reply-address :
    (first pre mid pad address post : List ℕ) (q : Query)
    → let word = hex_prefix ++ ((pad ++ address) ++ (b'"' ∷ post)) in
      let msg = first ++ (pre ++ (result_name ++ (mid ++ word))) in
      length first ≡ 10
      → misses result_name pre (result_name ++ (mid ++ word)) ≡ true
      → misses hex_prefix mid word ≡ true
      → length pad ≡ 24
      → length address ≡ 40
      → All (λ c. is_hex c ≡ true) (pad ++ address)
      → length msg ≤ 4096
      → dict_query_reply_callback msg q ≡ reply_candid_text (implementation_json address q)
unfolding dict_query_reply_callback
reply-address first pre mid pad address post q h10 m1 m2 hp ha hex short =
    let digits = pad ++ address in
    let word = hex_prefix ++ (digits ++ (b'"' ∷ post)) in
    let behind = pre ++ (result_name ++ (mid ++ word)) in
    let msg = first ++ behind in
    let size = length-append digits (b'"' ∷ post) in
    let from_tenth : drop 10 msg ≡ behind =
      ap (λ n. drop n msg) (sym h10) ∙ drop-append first behind in
    let e1 =
      ap (find_after 20 result_name) from_tenth
      ∙ skip_lem 20 result_name pre (result_name ++ (mid ++ word)) m1
      ∙ found_lem 20 b'r' (b'e' ∷ b's' ∷ b'u' ∷ b'l' ∷ b't' ∷ []) (mid ++ word)
          (omega (arith, length-append mid word, size, length-append pad address)) in
    let e2 =
      skip_lem 2 hex_prefix mid word m2
      ∙ found_lem 2 b'0' (b'x' ∷ []) (digits ++ (b'"' ∷ post))
          (omega (arith, size, length-append pad address)) in
    rw
      (
        dict_query_reply_callback,
        take_all 4096 msg short,
        find_lem msg (mid ++ word) (digits ++ (b'"' ∷ post)) e1 e2,
        hex_run-append 66 (hex_prefix ++ digits) post (zero_hex, (x_hex, hex))
            (omega (arith, hp, ha, length-append pad address)),
        address_word pad address hp ha,
      )
      refl
  where
    zero_hex : is_hex b'0' ≡ true
    zero_hex = unfold is_hex in refl

    x_hex : is_hex b'x' ≡ true
    x_hex = unfold is_hex in refl
