-- ===== src/FetchLogs/Request.antt =====
-- Which arguments `canister_update_fetchEvmLogs` of lib/ic0/canister_entry.c understands.
use idris2_ouc.Base.{
  ℕ, ◌+◌, ◌-◌, ◌≤◌, ◌<◌, ◌≡◌, ◌∙◌, refl, ap, List, [], ◌∷◌, ◌++◌, Option, none, some, take, length,
  length-drop, drop, ltb, false, arith,
}
use idris2_ouc.Word.{IsU64}
use idris2_ouc.Word.Bytes.{write_u64, read_u64-write_u64, read_u64-write_u64_end}
use idris2_ouc.Leb128.{parse_leb128, parse_leb128_loop}
use idris2_ouc.Candid.{didl, load_candid_args, skip_types}
use idris2_ouc.Candid.RoundTrip.{load_short}
use idris2_ouc.Idris.{Machine, encode_evm_rpc_idris2}
use idris2_ouc.EvmLogs.{
  build_eth_get_logs_json, request_text, from_text, to_text, end_text, hex_text,
}
use idris2_ouc.EvmRpc.{Answer, evm_rpc_canister_id, method_request}
use idris2_ouc.Dictionary.{refuse}
use idris2_ouc.FetchLogs.{
  Fetch, skip_codes, parse_address, request_logs, perform_call, fetch_at,
  canister_update_fetch_evm_logs, invalid_from_text,
}

-- The Candid message of two numbers of the type nat64.
unfoldable pub two_blocks : ℕ → ℕ → List ℕ
two_blocks from to = didl ++ (0 ∷ 2 ∷ 0x78 ∷ 0x78 ∷ write_u64 from ++ write_u64 to)

-- The Candid message of the type (nat64, nat64, opt text): its type table has the one entry `opt text`,
-- and `option` are the bytes of the third argument.
unfoldable pub with_option : ℕ → ℕ → List ℕ → List ℕ
with_option from to option =
    didl ++ (1 ∷ 0x6E ∷ 0x71 ∷ 3 ∷ 0x78 ∷ 0x78 ∷ 0 ∷ write_u64 from ++ (write_u64 to ++ option))

-- The JSON request for the logs of every contract between two blocks.
abbrev pub all_logs_json : ℕ → ℕ → List ℕ
all_logs_json from to =
    request_text
    ++ (from_text ++ (hex_text from ++ (to_text ++ (hex_text to ++ (b'"' ∷ end_text)))))

-- Nothing is replied, and a request is sent to the EVM RPC canister.
abbrev pub sent : List ℕ → Answer
sent payload = record {
  reply = none;
  call = some (record {
    callee = evm_rpc_canister_id;
    method = method_request;
    payload = payload;
    cycles = 20000000000;
  });
}

length-two_blocks : (from to : ℕ) → length (two_blocks from to) ≡ 24
unfolding two_blocks write_u64
length-two_blocks from to = refl

length-with_option :
    (from to : ℕ) (option : List ℕ) → length (with_option from to option) ≡ 27 + length option
unfolding with_option write_u64
length-with_option from to option = ground arith

module _ {S : Type 0} (main : Machine S → Option (Machine S)) where
  args_lem :
      (performed n arg_count offset : ℕ) (msg r1 r2 r3 : List ℕ) (f : Fetch) (m : Machine S)
      → load_candid_args msg ≡ msg
      → parse_leb128 (drop 4 msg) ≡ some (n, r1)
      → skip_types n r1 ≡ some r2
      → parse_leb128 r2 ≡ some (arg_count, r3)
      → ltb arg_count 2 ≡ false
      → skip_codes arg_count (length msg - length r3) ≡ some offset
      → canister_update_fetch_evm_logs main performed msg f m
        ≡ fetch_at main performed (drop offset msg) f m
  unfolding canister_update_fetch_evm_logs
  args_lem performed n arg_count offset msg r1 r2 r3 f m e0 e1 e2 e3 e4 e5 =
      rw (canister_update_fetch_evm_logs, e0, e1, e2, e3, e4, e5) refl

  blocks_lem :
      (performed from to : ℕ) (f : Fetch) (m : Machine S)
      → IsU64 from
      → IsU64 to
      → fetch_at main performed (write_u64 from ++ write_u64 to) f m
        ≡ request_logs main performed (record { from_block = from; to_block = to; address = [] }) m
  unfolding fetch_at parse_address
  blocks_lem performed from to f m hf ht =
      rw
        (
          fetch_at,
          read_u64-write_u64 from (write_u64 to) hf,
          second,
          whole,
          read_u64-write_u64_end to ht,
          rest,
        )
        refl
    where
      whole : length (write_u64 from ++ write_u64 to) ≡ 16
      whole = unfold write_u64 in refl

      second : drop 8 (write_u64 from ++ write_u64 to) ≡ write_u64 to
      second = unfold write_u64 in refl

      rest : drop 16 (write_u64 from ++ write_u64 to) ≡ []
      rest = unfold write_u64 in refl

  -- What `request_logs` does where the Idris2 code encodes the request and the system takes the call.
  request_lem :
      (f : Fetch) (m m' : Machine S) (len : ℕ)
      → encode_evm_rpc_idris2 main
          (build_eth_get_logs_json f.from_block f.to_block f.address)
          1
          8000
          m
        ≡ some (len, m')
      → len < 2147483648
      → request_logs main 0 f m ≡ some (sent (take len m'.candid.buf), f, m')
  unfolding request_logs perform_call
  request_lem f m m' len e h = ground (arith, e)

  -- A fetchEvmLogs message of two blocks, without an address: where the Idris2 code encodes the request
  -- for the logs between them, with no address in it, and the system takes the call, the two blocks
  -- and no address are kept, and the encoded request is sent to the EVM RPC canister with 20
  -- billion cycles; nothing is replied. (64-bit numbers.)
  pub fetch_evm_logs-two_blocks :
      (from to len : ℕ) (f : Fetch) (m m' : Machine S)
      → IsU64 from
      → IsU64 to
      → encode_evm_rpc_idris2 main (all_logs_json from to) 1 8000 m ≡ some (len, m')
      → len < 2147483648
      → canister_update_fetch_evm_logs main 0 (two_blocks from to) f m
        ≡ some (
          sent (take len m'.candid.buf),
          record { from_block = from; to_block = to; address = [] },
          m',
        )
  unfolding two_blocks skip_types parse_leb128 parse_leb128_loop skip_codes
  fetch_evm_logs-two_blocks from to len f m m' hf ht e h =
      let values = write_u64 from ++ write_u64 to in
      let kept : Fetch = record { from_block = from; to_block = to; address = [] } in
      args_lem 0 0 2 8 (two_blocks from to) (2 ∷ 0x78 ∷ 0x78 ∷ values) (2 ∷ 0x78 ∷ 0x78 ∷ values)
        (0x78 ∷ 0x78 ∷ values) f m
        (load_short (two_blocks from to) (omega (arith, length-two_blocks from to))) refl refl refl
        refl (unfold write_u64 in refl)
      ∙ blocks_lem 0 from to f m hf ht
      ∙ request_lem kept m m' len (unfold build_eth_get_logs_json in e) h

  short_lem :
      (performed : ℕ) (bytes : List ℕ) (f : Fetch) (m : Machine S)
      → length bytes < 8
      → fetch_at main performed bytes f m ≡ some (refuse invalid_from_text, f, m)
  unfolding fetch_at
  short_lem performed bytes f m h = ground arith

  -- A message of the documented type is refused: the code takes the second byte of the type table's
  -- entry for the number of arguments, and skips 113 type codes. (The third argument has at
  -- most 100 bytes.)
  pub fetch_evm_logs-with_option :
      (performed from to : ℕ) (option : List ℕ) (f : Fetch) (m : Machine S)
      → length option ≤ 100
      → canister_update_fetch_evm_logs main performed (with_option from to option) f m
        ≡ some (refuse invalid_from_text, f, m)
  unfolding with_option skip_types parse_leb128 parse_leb128_loop skip_codes
  fetch_evm_logs-with_option performed from to option f m short =
      let msg = with_option from to option in
      let values = write_u64 from ++ (write_u64 to ++ option) in
      let size = length-with_option from to option in
      args_lem performed 1 113 120 msg (0x6E ∷ 0x71 ∷ 3 ∷ 0x78 ∷ 0x78 ∷ 0 ∷ values)
        (0x71 ∷ 3 ∷ 0x78 ∷ 0x78 ∷ 0 ∷ values) (3 ∷ 0x78 ∷ 0x78 ∷ 0 ∷ values) f m
        (load_short msg (omega (arith, size))) refl refl refl refl
        (ap (skip_codes 113) {x = length msg - length (3 ∷ 0x78 ∷ 0x78 ∷ 0 ∷ values)} {y = 7}
          (unfold write_u64 in omega arith))
      ∙ short_lem performed (drop 120 msg) f m (omega (arith, size, length-drop 120 msg))
