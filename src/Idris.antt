-- ===== src/Idris.antt =====
-- The calls of lib/ic0/canister_entry.c into the Idris2 code, and the entry points that only make such
-- a call. The Idris2 code is a compiled closure (`__mainExpression_0`, run by `idris2_trampoline`): a
-- parameter that takes the whole state, since it may change all of it. `none` is a trap.
pub mod Calls
use idris2_ouc.Base.{
  ℕ, ◌+◌, ◌-◌, ◌/◌, ◌%◌, ◌<◌, List, [], ◌∷◌, ◌++◌, Option, none, some, ◌>>=◌, Bool, ltb, leb, ◌==◌,
  if◌then◌else◌, length, get_or,
}
use idris2_ouc.FfiBridge.{
  Channel, Buffer, ouc_reset_ffi, ouc_c_set_arg_i32, ouc_c_get_result_i32, ouc_c_set_json,
}
use idris2_ouc.Candid.{reply_candid_text, reply_candid_nat}

-- What C and Idris2 share: the channel, the Candid and the JSON buffer, and the rest of the state.
pub record Machine (S : Type 0) : Type 0 where
  pub channel : Channel
  pub candid : Buffer
  pub json : Buffer
  pub rest : S

-- `count >= 0 ? count : 0` on a 32-bit word.
unfoldable pub reply_count : ℕ → List ℕ
reply_count count = reply_candid_nat (if ltb count 2147483648 then count else 0)

module _ {S : Type 0} (main : Machine S → Option (Machine S)) where
  -- `__mainExpression_0`, `idris2_trampoline` and the result.
  unfoldable pub run_closure : Channel → Machine S → Option (ℕ × Machine S)
  run_closure c m = do
    m' ← main (record m { channel = c })
    some (ouc_c_get_result_i32 m'.channel, m')

  unfoldable pub call_idris2 : ℕ → Machine S → Option (ℕ × Machine S)
  call_idris2 cmd m = run_closure (ouc_c_set_arg_i32 0 cmd (ouc_reset_ffi m.channel)) m

  unfoldable pub call_idris2_with_arg : ℕ → ℕ → Machine S → Option (ℕ × Machine S)
  call_idris2_with_arg cmd arg1 m =
      run_closure (ouc_c_set_arg_i32 1 arg1 (ouc_c_set_arg_i32 0 cmd (ouc_reset_ffi m.channel))) m

  unfoldable pub call_idris2_2arg : ℕ → ℕ → ℕ → Machine S → Option (ℕ × Machine S)
  call_idris2_2arg cmd arg1 arg2 m =
      run_closure
        (ouc_c_set_arg_i32 2 arg2
          (ouc_c_set_arg_i32 1 arg1 (ouc_c_set_arg_i32 0 cmd (ouc_reset_ffi m.channel))))
        m

  -- `CMD_ENCODE_EVM_RPC` on the JSON in its buffer.
  unfoldable pub encode_evm_rpc_idris2 : List ℕ → ℕ → ℕ → Machine S → Option (ℕ × Machine S)
  encode_evm_rpc_idris2 json_rpc chain_id max_bytes m =
      call_idris2_2arg 100 chain_id max_bytes (record m { json = ouc_c_set_json json_rpc m.json })

  -- CMD_GET_OUC_EVENTS on the byte at 4. A message below 5 bytes is answered without a call.
  unfoldable pub canister_query_get_ouc_events : List ℕ → Machine S → Option (List ℕ × Machine S)
  canister_query_get_ouc_events msg m =
      if ltb (length msg) 5 then some (reply_candid_nat 0, m) else (do
        (count, m') ← call_idris2_with_arg 30 (get_or msg 4 0) m
        some (reply_count count, m'))

  unfoldable pub canister_query_get_proposal_events :
      List ℕ → Machine S → Option (List ℕ × Machine S)
  canister_query_get_proposal_events msg m =
      if ltb (length msg) 5 then some (reply_candid_nat 0, m) else (do
        (count, m') ← call_idris2_with_arg 31 (get_or msg 4 0) m
        some (reply_count count, m'))

  unfoldable pub canister_query_get_dashboard_summary : Machine S → Option (List ℕ × Machine S)
  canister_query_get_dashboard_summary m = do
    (count, m') ← call_idris2 32 m
    some (reply_count count, m')

  unfoldable pub canister_update_store_test_event : List ℕ → Machine S → Option (List ℕ × Machine S)
  canister_update_store_test_event msg m =
      if ltb (length msg) 6 then some (reply_candid_nat 0, m) else (do
        (count, m') ← call_idris2_2arg 33 (get_or msg 4 0) (get_or msg 5 0) m
        some (reply_count count, m'))
