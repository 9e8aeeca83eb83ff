-- ===== src/Handlers/Tests.antt =====
-- The theorems on the handlers at concrete messages.
use idris2_ouc.Base.{ℕ, ◌+◌, ◌≡◌, ◌++◌, refl, List, [], ◌∷◌, some, arith, replicate}
use idris2_ouc.Word.{u64}
use idris2_ouc.Word.Bytes.{write_u64}
use idris2_ouc.Candid.{TextArg, parse_candid_text_arg, reply_candid_text, reply_candid_nat}
use idris2_ouc.Candid.RoundTrip.{text_arg-reply_text}
use idris2_ouc.Account.{Account, ouc_get_protocol_balance, ouc_get_protocol_tier}
use idris2_ouc.Handlers.{
  Counters, canister_query_get_proposal, canister_update_submit_proposal, decimal, last_digits,
  id_text, pending_text, not_found_text, canister_update_donate,
  canister_query_get_protocol_balance, donate_response,
}
use idris2_ouc.Handlers.Proposals.{submit_proposal-get_proposal}
use idris2_ouc.Handlers.Donations.{donate-get_protocol_balance}

abbrev counted : ℕ → Counters
counted n = record { proposals = n; auditors = 0; state_initialized = 0 }

abbrev blank : TextArg
blank = record { len = 0; buf = replicate 512 0 }

abbrev message : List ℕ
message = reply_candid_text (65 ∷ [])

abbrev read_text : TextArg
read_text = record { len = 1; buf = (65 ∷ []) ++ (0 ∷ replicate 510 0) }

message_read : parse_candid_text_arg message blank ≡ some read_text
message_read = text_arg-reply_text (65 ∷ []) blank (omega arith) refl

submit_proposal-get_proposal_example :
    (c' : Counters) × (canister_update_submit_proposal message blank (counted 5)
      ≡ some (reply_candid_text (id_text ++ (last_digits 5 ++ (b'}' ∷ []))), read_text, c'))
    × (canister_query_get_proposal (reply_candid_nat 5) (counted 5)
        ≡ some (reply_candid_text not_found_text))
    × (canister_query_get_proposal (reply_candid_nat 5) c'
        ≡ some (reply_candid_text (id_text ++ (decimal 5 ++ pending_text))))
    × (c'.auditors ≡ 0)
submit_proposal-get_proposal_example =
    submit_proposal-get_proposal message blank read_text (counted 5) message_read (omega arith)

donate-get_protocol_balance_example :
    (t' : TextArg) × (t'' : TextArg) × (s' : List Account) × (canister_update_donate
        (write_u64 5 ++ [])
        (λ n. write_u64 n ++ [])
        7
        (reply_candid_text (65 ∷ []))
        blank
        []
      ≡ some (
        reply_candid_text (
            donate_response
              (65 ∷ [])
              (u64 (ouc_get_protocol_balance (65 ∷ []) [] + 5))
              (ouc_get_protocol_tier (65 ∷ []) s')),
        t',
        s',
      ))
    × (canister_query_get_protocol_balance (reply_candid_text (65 ∷ [])) t' s'
        ≡ some (reply_candid_nat (u64 (ouc_get_protocol_balance (65 ∷ []) [] + 5)), t''))
donate-get_protocol_balance_example =
    donate-get_protocol_balance (65 ∷ []) blank 5 7 [] (λ n. write_u64 n ++ []) [] (omega arith, tt)
      (omega arith) (omega arith) refl (omega arith) refl (λ e. omega arith)
