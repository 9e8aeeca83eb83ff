-- ===== src/FetchLogs/Tests.antt =====
-- Concrete messages of the log requests.
use idris2_ouc.Base.{
  ◌+◌, ◌≤◌, length, true, ◌≡◌, refl, [], ◌∷◌, ◌++◌, Option, some, ◌>>=◌, ℕ, map, arith, replicate,
}
use idris2_ouc.Candid.{reply_candid_text}
use idris2_ouc.EvmLogs.{begins, hex_text, hex_loop}
use idris2_ouc.EvmLogs.Fields.{misses}
use idris2_ouc.EvmLogs.Format.{Log, IsLog, log_body}
use idris2_ouc.EvmLogs.Objects.{array, object}
use idris2_ouc.EvmLogs.Stored.{event_of}
use idris2_ouc.Idris.{Machine, encode_evm_rpc_idris2, call_idris2_2arg, run_closure}
use idris2_ouc.FfiBridge.{ouc_c_set_json, ouc_c_set_arg_i32, ouc_reset_ffi, ouc_c_get_result_i32}
use idris2_ouc.Dictionary.{refuse}
use idris2_ouc.FetchLogs.{
  Fetch, canister_update_fetch_evm_logs, invalid_from_text, fetched_text, store_events,
  fetch_logs_reply_callback,
}
use idris2_ouc.FetchLogs.Request.{
  two_blocks, with_option, all_logs_json, sent, fetch_evm_logs-two_blocks,
  fetch_evm_logs-with_option,
}
use idris2_ouc.FetchLogs.Reply.{logs_reply, fetch_logs_reply-logs}

abbrev idle : Machine ℕ
idle = record {
  channel = record { args = replicate 8 0; result = 0 };
  candid = record { buf = replicate 4096 0; len = 0 };
  json = record { buf = replicate 1024 0; len = 0 };
  rest = 0;
}

-- An Idris2 code that counts its calls.
abbrev counting : Machine ℕ → Option (Machine ℕ)
counting m = some (record m { rest = 1 + m.rest })

abbrev earlier : Fetch
earlier = record { from_block = 1; to_block = 2; address = [] }

-- An Idris2 code that answers 6 bytes.
abbrev answers_six : Machine ℕ → Option (Machine ℕ)
answers_six m = some (record m { channel = record m.channel { result = 6 } })

abbrev asked : Machine ℕ
asked = record idle {
  channel = record { args = 100 ∷ 1 ∷ 8000 ∷ 0 ∷ 0 ∷ 0 ∷ 0 ∷ 0 ∷ []; result = 6 };
  json = ouc_c_set_json (all_logs_json 31 4294967301) idle.json;
}

fetch_evm_logs-two_blocks_example :
    canister_update_fetch_evm_logs answers_six 0 (two_blocks 31 4294967301) earlier idle
    ≡ some (
      sent (replicate 6 0),
      record { from_block = 31; to_block = 4294967301; address = [] },
      asked,
    )
fetch_evm_logs-two_blocks_example =
    fetch_evm_logs-two_blocks answers_six 31 4294967301 6 earlier idle asked (omega arith)
      (omega arith) encoded (omega arith)
  where
    encoded :
        encode_evm_rpc_idris2 answers_six (all_logs_json 31 4294967301) 1 8000 idle
        ≡ some (6, asked)
    encoded =
        unfold encode_evm_rpc_idris2 call_idris2_2arg run_closure ouc_c_set_arg_i32 ouc_reset_ffi
          ouc_c_get_result_i32 in
        refl

-- The option is the text "0xa".
fetch_evm_logs-with_option_example :
    canister_update_fetch_evm_logs counting 0
      (with_option 31 32 (1 ∷ 3 ∷ b'0' ∷ b'x' ∷ b'a' ∷ []))
      earlier
      idle
    ≡ some (refuse invalid_from_text, earlier, idle)
fetch_evm_logs-with_option_example =
    fetch_evm_logs-with_option counting 0 31 32 (1 ∷ 3 ∷ b'0' ∷ b'x' ∷ b'a' ∷ []) earlier idle
      (omega arith)

-- The address 0xa1, the topic 0x8c0e1234 and the block 0x1f.
abbrev vote : Log
vote = record {
  address = b'0' ∷ b'x' ∷ b'a' ∷ b'1' ∷ [];
  topic = b'0' ∷ b'x' ∷ b'8' ∷ b'c' ∷ b'0' ∷ b'e' ∷ b'1' ∷ b'2' ∷ b'3' ∷ b'4' ∷ [];
  payload = b'0' ∷ b'x' ∷ [];
  block = 31;
  others = [];
}

vote-IsLog : IsLog vote
vote-IsLog = record {
  address_plain = ground arith;
  topic_plain = ground arith;
  payload_plain = ground arith;
  block_fits = omega arith;
  others_flat = tt;
}

fetch_logs_reply-logs_example :
    fetch_logs_reply_callback counting
      (replicate 10 0 ++ ((b'x' ∷ []) ++ logs_reply (vote ∷ vote ∷ []) []))
      earlier
      idle
    ≡ (do
      m' ← store_events counting (map event_of (vote ∷ vote ∷ [])) idle
      some (reply_candid_text (fetched_text earlier 2), m'))
fetch_logs_reply-logs_example =
    fetch_logs_reply-logs counting (replicate 10 0) (b'x' ∷ []) (vote ∷ vote ∷ []) [] earlier idle
      refl missed (vote-IsLog, (vote-IsLog, tt)) short
  where
    missed : misses (b'{' ∷ b'"' ∷ []) (b'x' ∷ []) (logs_reply (vote ∷ vote ∷ []) []) ≡ true
    missed = unfold misses begins in refl

    short : length (replicate 10 0 ++ ((b'x' ∷ []) ++ logs_reply (vote ∷ vote ∷ []) [])) ≤ 8192
    short = unfold logs_reply array object log_body hex_text hex_loop in omega arith
