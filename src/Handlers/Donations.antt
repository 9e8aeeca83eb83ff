-- ===== src/Handlers/Donations.antt =====
-- A donation from the message to the balance that a later query answers.
use idris2_ouc.Base.{
  ℕ, suc, ◌+◌, ◌≤◌, ◌<◌, ◌≡◌, ◌∙◌, refl, ap, List, [], ◌∷◌, ◌++◌, none, some, length, arith, drop,
  length-drop, length-append, All,
}
use idris2_ouc.Word.{u64, IsU64}
use idris2_ouc.Word.Bytes.{write_u64}
use idris2_ouc.Candid.{TextArg, reply_candid_text, reply_candid_nat}
use idris2_ouc.Candid.RoundTrip.{text_arg-reply_text}
use idris2_ouc.Account.{
  Account, find_protocol_account, ouc_donate, ouc_get_protocol_balance, ouc_get_protocol_tier,
  ouc_accept_and_donate,
}
use idris2_ouc.Account.Donate.{donate-balance}
use idris2_ouc.Account.Cycles.{accept_and_donate-donate}
use idris2_ouc.Handlers.{
  text_chars, donate_response, canister_update_donate, canister_query_get_protocol_balance,
}

text_chars-append : (id rest : List ℕ) → All (λ c. 1 ≤ c) id → text_chars (id ++ (0 ∷ rest)) ≡ id
unfolding text_chars
text_chars-append [] rest h = refl
text_chars-append (c ∷ id) rest (hc, h) = ground (arith, text_chars-append id rest h)

-- What the parser leaves for a text.
parsed : List ℕ → TextArg → TextArg
parsed id t = record { len = length id; buf = id ++ (0 ∷ drop (suc (length id)) t.buf) }

parsed-length :
    (id : List ℕ) (t : TextArg)
    → length id ≤ 511
    → length t.buf ≡ 512
    → length (parsed id t).buf ≡ 512
unfolding parsed
parsed-length id t h hb = omega (
  arith,
  length-append id (0 ∷ drop (suc (length id)) t.buf),
  length-drop (suc (length id)) t.buf,
)

module _ (id : List ℕ) (t : TextArg) (chars : All (λ c. 1 ≤ c) id) (some_id : 1 ≤ length id) where
  balance_of_message :
      (s : List Account)
      → length id ≤ 511
      → length t.buf ≡ 512
      → canister_query_get_protocol_balance (reply_candid_text id) t s
        ≡ some (reply_candid_nat (ouc_get_protocol_balance id s), parsed id t)
  unfolding canister_query_get_protocol_balance parsed
  balance_of_message s h hb = ground (
    arith,
    text_arg-reply_text id t h hb,
    text_chars-append id (drop (suc (length id)) t.buf) chars,
  )

  donate_message :
      (available : List ℕ) (accept : ℕ → List ℕ) (now : ℕ) (s : List Account)
      → length id ≤ 511
      → length t.buf ≡ 512
      → canister_update_donate available accept now (reply_candid_text id) t s ≡ (
          let (b, s') = ouc_accept_and_donate available accept id now s in
          some (
            reply_candid_text (donate_response id b (ouc_get_protocol_tier id s')),
            parsed id t,
            s',
          ))
  unfolding canister_update_donate parsed
  donate_message available accept now s h hb = ground (
    arith,
    text_arg-reply_text id t h hb,
    text_chars-append id (drop (suc (length id)) t.buf) chars,
  )

-- A `donate` message with a protocol id of 1 to 511 characters that comes with `v` cycles, on a system
-- that accepts all that it is asked for, answers the first 185 characters of the id, the new balance and the tier, and a
-- `getProtocolBalance` message with the same id answers the old balance plus `v`, modulo 2^64, then.
-- (No NUL in the id; a new id needs a free slot.)
pub donate-get_protocol_balance :
    (id : List ℕ) (t : TextArg) (v now : ℕ) (high : List ℕ) (accept : ℕ → List ℕ) (s : List Account)
    → All (λ c. 1 ≤ c) id
    → 1 ≤ length id
    → length id ≤ 511
    → length t.buf ≡ 512
    → IsU64 v
    → accept v ≡ write_u64 v ++ high
    → ((find_protocol_account id s ≡ none) → length s < 256)
    → (t' : TextArg) × (t'' : TextArg) × (s' : List Account) × (canister_update_donate
          (write_u64 v ++ high)
          accept
          now
          (reply_candid_text id)
          t
          s
        ≡ some (
          reply_candid_text (
              donate_response id
                (u64 (ouc_get_protocol_balance id s + v))
                (ouc_get_protocol_tier id s')),
          t',
          s',
        ))
      × (canister_query_get_protocol_balance (reply_candid_text id) t' s'
          ≡ some (reply_candid_nat (u64 (ouc_get_protocol_balance id s + v)), t''))
donate-get_protocol_balance id t v now high accept s chars some_id short buf hv e room =
    let (b, r) = donate-balance id v now s room in
    (
      parsed id t,
      parsed id (parsed id t),
      (ouc_donate id v now s).1,
      donate_message id t chars some_id (write_u64 v ++ high) accept now s short buf
          ∙ ground (arith, accept_and_donate-donate v high accept id now s hv e, r),
      balance_of_message id (parsed id t) chars some_id (ouc_donate id v now s).1 short
            (parsed-length id t short buf)
          ∙ ap (λ n. some (reply_candid_nat n, parsed id (parsed id t))) b,
    )
