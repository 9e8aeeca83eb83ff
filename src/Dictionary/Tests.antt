-- ===== src/Dictionary/Tests.antt =====
-- Concrete queries of dictionaries.
use idris2_ouc.Base.{
  ◌≤◌, ◌≢◌, ap, ◌∙◌, All, ℕ, ◌≡◌, refl, List, [], ◌∷◌, ◌++◌, Option, some, arith, replicate, length,
  take,
}
use idris2_ouc.Candid.{reply_candid_text}
use idris2_ouc.EvmLogs.{begins, find_after}
use idris2_ouc.EvmLogs.Fields.{misses}
use idris2_ouc.Idris.{Machine, encode_evm_rpc_idris2, call_idris2_2arg, run_closure}
use idris2_ouc.FfiBridge.{ouc_c_set_json, ouc_c_set_arg_i32, ouc_reset_ffi, ouc_c_get_result_i32}
use idris2_ouc.EvmRpc.{perform_request, Answer, request_evm_rpc}
use idris2_ouc.Dictionary.{
  find_implementation, hex_run, address_of, Query, result_name, hex_prefix, is_hex,
  implementation_json, dict_query_reply_callback, build_dict_query_json,
  canister_update_query_dictionary,
}
use idris2_ouc.Dictionary.Reply.{reply-address}
use idris2_ouc.Dictionary.Outstanding.{query-overtaken, two_texts, query_dictionary-request}

abbrev query : Query
query = record { dict_addr = b'0' ∷ b'x' ∷ b'a' ∷ []; selector = b'0' ∷ b'x' ∷ b'1' ∷ [] }

reply-address_example :
    dict_query_reply_callback
      (replicate 10 0
        ++ ((b'"' ∷ [])
            ++ (result_name
                ++ ((b'"' ∷ b':' ∷ b'"' ∷ [])
                    ++ (hex_prefix
                        ++ ((replicate 24 b'0' ++ replicate 40 b'e') ++ (b'"' ∷ b'}' ∷ [])))))))
      query
    ≡ reply_candid_text (implementation_json (replicate 40 b'e') query)
unfolding misses begins is_hex
reply-address_example =
    reply-address (replicate 10 0) (b'"' ∷ []) (b'"' ∷ b':' ∷ b'"' ∷ []) (replicate 24 b'0')
      (replicate 40 b'e') (b'}' ∷ []) query refl refl refl refl refl (ground arith) (omega arith)

abbrev idle : Machine ℕ
idle = record {
  channel = record { args = replicate 8 0; result = 0 };
  candid = record { buf = replicate 4096 0; len = 0 };
  json = record { buf = replicate 1024 0; len = 0 };
  rest = 0;
}

-- An Idris2 code that answers 6 bytes.
abbrev answers_six : Machine ℕ → Option (Machine ℕ)
answers_six m = some (record m { channel = record m.channel { result = 6 } })

abbrev other : Query
other = record { dict_addr = b'0' ∷ b'x' ∷ b'b' ∷ []; selector = b'0' ∷ b'x' ∷ b'2' ∷ [] }

-- The machine after a query.
abbrev after : Query → Machine ℕ → Machine ℕ
after q m = record m {
  channel = record { args = 100 ∷ 1 ∷ 2000 ∷ 0 ∷ 0 ∷ 0 ∷ 0 ∷ 0 ∷ []; result = 6 };
  json = ouc_c_set_json (build_dict_query_json q.dict_addr q.selector) m.json;
}

abbrev sent : Answer
sent = perform_request 0 10000000000 6 (replicate 4096 0)

request_sent :
    (q : Query) (m : Machine ℕ)
    → m.candid.buf ≡ replicate 4096 0
    → request_evm_rpc answers_six (build_dict_query_json q.dict_addr q.selector) 1 2000 0 m
      ≡ some (sent, after q m)
unfolding request_evm_rpc encode_evm_rpc_idris2 call_idris2_2arg run_closure ouc_c_set_arg_i32
    ouc_reset_ffi ouc_c_get_result_i32
request_sent q m e = ap (λ b. some (perform_request 0 10000000000 6 b, after q m)) e

accepted :
    (q q' : Query) (m : Machine ℕ)
    → length q.dict_addr ≤ 43
    → length q.selector ≤ 11
    → All (λ c. c ≢ 0) q.dict_addr
    → All (λ c. c ≢ 0) q.selector
    → m.candid.buf ≡ replicate 4096 0
    → canister_update_query_dictionary answers_six 0 (two_texts q.dict_addr q.selector) q' m
      ≡ some (sent, q, after q m)
accepted q q' m ha hs pa ps e =
    query_dictionary-request answers_six 0 q.dict_addr q.selector q' m ha hs pa ps
    ∙ rw (request_sent q m e) refl

-- A reply with the word 0x and 40 digits.
abbrev reply : List ℕ
reply =
    replicate 10 0
    ++ ((b'"' ∷ [])
        ++ (result_name
            ++ ((b'"' ∷ b':' ∷ b'"' ∷ [])
                ++ (hex_prefix
                    ++ (replicate 24 b'0' ++ (replicate 40 b'e' ++ (b'"' ∷ b'}' ∷ [])))))))

found : find_implementation (take 4096 reply) ≡ some (replicate 40 b'e')
unfolding find_implementation find_after begins hex_run is_hex address_of
found = refl

query-overtaken_example :
    dict_query_reply_callback reply other
    ≡ reply_candid_text (implementation_json (replicate 40 b'e') other)
query-overtaken_example =
    query-overtaken answers_six 0 0 query.dict_addr query.selector other.dict_addr other.selector
      query query other idle (after query idle) (after other (after query idle)) sent sent reply
      (replicate 40 b'e') (omega arith) (omega arith) (ground arith) (ground arith)
      (accepted query query idle (omega arith) (omega arith) (ground arith) (ground arith) refl)
      (accepted other query (after query idle) (omega arith) (omega arith) (ground arith)
        (ground arith) refl)
      found
