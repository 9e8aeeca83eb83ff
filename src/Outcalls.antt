-- ===== src/Outcalls.antt =====
-- The entry points of lib/ic0/canister_entry.c that start an HTTP outcall of the management canister. The
-- answer of the system to the call is an argument.
use idris2_ouc.Base.{ℕ, List, [], ◌∷◌, ◌++◌, none, some, ◌==◌, if◌then◌else◌}
use idris2_ouc.Candid.{reply_candid_text}
use idris2_ouc.Http.{build_simple_get_request, build_eth_block_number_request}
use idris2_ouc.EvmRpc.{Answer, call_failed_text, signed_digits}

abbrev pub method_http_request : List ℕ
method_http_request =
    b'h' ∷ b't' ∷ b't' ∷ b'p' ∷ b'_' ∷ b'r' ∷ b'e' ∷ b'q' ∷ b'u' ∷ b'e' ∷ b's' ∷ b't' ∷ []

unfoldable pub http_call : ℕ → List ℕ → Answer
http_call performed request = record {
  reply =
      if performed == 0
      then none
      else some (reply_candid_text (call_failed_text ++ (signed_digits performed ++ (b'}' ∷ []))));
  call = some (record {
    callee = [];
    method = method_http_request;
    payload = request;
    cycles = 30000000000;
  });
}

unfoldable pub canister_update_test_http_get : ℕ → Answer
canister_update_test_http_get performed = http_call performed build_simple_get_request

unfoldable pub canister_update_test_eth_block_number : ℕ → Answer
canister_update_test_eth_block_number performed = http_call performed build_eth_block_number_request
