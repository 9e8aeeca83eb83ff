-- ===== src/Handlers/Proposals.antt =====
-- Proposals: what is submitted is found.
use idris2_ouc.Base.{
  ℕ, ◌+◌, ◌≤◌, ◌<◌, ◌≡◌, refl, List, [], ◌∷◌, ◌++◌, some, ltb, if◌then◌else◌, arith,
}
use idris2_ouc.Word.{IsU64}
use idris2_ouc.Candid.{TextArg, parse_candid_text_arg, reply_candid_text, reply_candid_nat}
use idris2_ouc.Candid.RoundTrip.{nat_arg-reply_nat}
use idris2_ouc.Handlers.{
  Counters, ouc_get_proposal_count, ouc_inc_proposal_count, decimal, last_digits, id_text,
  pending_text, not_found_text, canister_query_get_proposal, canister_update_submit_proposal,
}

-- `getProposal`, asked for a 64-bit id in the format of a Candid nat, answers the id in decimal with
-- the status "pending" if it is below the number of proposals, and "not_found" otherwise.
pub get_proposal-reply_nat :
    (id : ℕ) (c : Counters)
    → IsU64 id
    → canister_query_get_proposal (reply_candid_nat id) c
      ≡ some (
          reply_candid_text (
            if ltb id c.proposals then id_text ++ (decimal id ++ pending_text) else not_found_text))
unfolding canister_query_get_proposal ouc_get_proposal_count
get_proposal-reply_nat id c h = rw (nat_arg-reply_nat id h) refl

-- A `submitProposal` whose message can be parsed, with fewer than 2^31 - 1 proposals before, gets the
-- next id: `getProposal` of this id answers "not_found" before the call and finds the proposal after
-- it. No auditor is counted.
pub submit_proposal-get_proposal :
    (msg : List ℕ) (t0 t : TextArg) (c : Counters)
    → parse_candid_text_arg msg t0 ≡ some t
    → c.proposals < 2147483647
    → (c' : Counters) × (canister_update_submit_proposal msg t0 c
        ≡ some (reply_candid_text (id_text ++ (last_digits c.proposals ++ (b'}' ∷ []))), t, c'))
      × (canister_query_get_proposal (reply_candid_nat c.proposals) c
          ≡ some (reply_candid_text not_found_text))
      × (canister_query_get_proposal (reply_candid_nat c.proposals) c'
          ≡ some (reply_candid_text (id_text ++ (decimal c.proposals ++ pending_text))))
      × (c'.auditors ≡ c.auditors)
unfolding canister_update_submit_proposal ouc_inc_proposal_count
submit_proposal-get_proposal msg t0 t c e room =
    let c' = record c { proposals = c.proposals + 1 } in
    (
      c',
      ground (arith, e),
      rw (get_proposal-reply_nat c.proposals c (omega arith)) (ground arith),
      rw (get_proposal-reply_nat c.proposals c' (omega arith)) (ground arith),
      refl,
    )

last_digits-thousand : (id : ℕ) → 100 ≤ id → last_digits (id + 1000) ≡ last_digits id
unfolding last_digits
last_digits-thousand id h = ground arith

-- `submitProposal` gives the same reply for the ids `id` and `id + 1000`, from 100 on: the client
-- cannot tell the two proposals apart.
pub submit_proposal_ambiguous :
    (msg : List ℕ) (t0 t : TextArg) (c d : Counters)
    → parse_candid_text_arg msg t0 ≡ some t
    → 100 ≤ c.proposals
    → d.proposals ≡ c.proposals + 1000
    → d.proposals < 2147483647
    → (reply : List ℕ) × (c' : Counters) × (d' : Counters) × (canister_update_submit_proposal msg t0
          c
        ≡ some (reply, t, c'))
      × (canister_update_submit_proposal msg t0 d ≡ some (reply, t, d'))
unfolding canister_update_submit_proposal ouc_inc_proposal_count
submit_proposal_ambiguous msg t0 t c d e h k room = (
  reply_candid_text (id_text ++ (last_digits c.proposals ++ (b'}' ∷ []))),
  record c { proposals = c.proposals + 1 },
  record d { proposals = d.proposals + 1 },
  ground (arith, e),
  ground (arith, e, last_digits-thousand c.proposals h),
)
