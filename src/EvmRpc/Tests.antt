-- ===== src/EvmRpc/Tests.antt =====
-- Concrete answers of the EVM RPC canister.
use idris2_ouc.Base.{◌≡◌, refl, [], ◌∷◌, ◌++◌, some, inl, arith}
use idris2_ouc.EvmLogs.{begins}
use idris2_ouc.EvmLogs.Fields.{misses}
use idris2_ouc.EvmRpc.{error_field, code_field, check_rpc_error}
use idris2_ouc.EvmRpc.Errors.{code_text, is_one_of, check_rpc_error-code}

-- The answer {"error":{"code":-32601,"m
check_rpc_error-code_example :
    check_rpc_error (
      (b'{' ∷ [])
      ++ (error_field
          ++ ((b':' ∷ b'{' ∷ []) ++ (code_field ++ code_text 32601 b',' (b'"' ∷ b'm' ∷ [])))))
    ≡ some 2
unfolding misses begins is_one_of
check_rpc_error-code_example =
    check_rpc_error-code (b'{' ∷ []) (b':' ∷ b'{' ∷ []) (b'"' ∷ b'm' ∷ []) 32601 b',' refl refl
      (omega arith) (inl (omega arith), omega arith, omega arith)
