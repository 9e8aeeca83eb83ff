-- ===== src/Lib.antt =====
-- Verification of the C layer of the OUC canister (lib/ic0 of the repository).
--
-- The canister is a WebAssembly module: C entry points (lib/ic0/canister_entry.c) that parse Candid
-- arguments and build replies, a C library with the state that survives between calls (lib/ic0/*.c),
-- and Idris2 code that is called through integer arguments and buffers. The parts below are the ones
-- that keep state or transform data. They meet in two places: the system's stable memory, which the
-- key-value storage and the snapshot of the database both use from offset 0 on, and the SQLite
-- connection, which the snapshot reads and replaces.
--
-- Files, and the code that they model:
-- - Word: the fixed-width integers of C, as natural numbers with the wrap-around written out
--   (`u8`, `u32`, `u64`), and `write_u32`, `read_u32`, `write_u64`, `read_u64` of
--   lib/ic0/sqlite_stable.c.
-- - Stable: the stable memory of the Internet Computer, which is not part of the repository: an
--   interface with its documented behaviour, and a concrete memory that has it (Stable.Flat).
-- - StableKv: `stkv_*` of lib/ic0/ic0_stubs.c. One function per C function; the search loop that
--   `stkv_put` and `stkv_get` repeat is `find_entry`. StableKv.Log is the abstract storage, a list of
--   entries; StableKv.Layout says how it lies in memory (`Holds`).
-- - SqlBridge: lib/ic0/sqlite_bridge.c over an interface of SQLite (SqlBridge.Api), with a concrete
--   instance (SqlBridge.Toy).
-- - Snapshot: lib/ic0/sqlite_stable.c.
-- - Leb128, Candid: the argument parsers and reply builders of lib/ic0/canister_entry.c.
-- - Account: the protocol accounts of lib/ic0/ic0_stubs.c, `ouc_donate` and its queries.
-- - FfiBridge: lib/ic0/ic_ffi_bridge.c, the arguments, buffers and stable-memory words that C and Idris2
--   share, and the parts of lib/ic0/ic0_stubs.c of the same shape.
-- - Btree: lib/ic0/stable_btree.c, its prefix scan in Btree.Scan. Btree.Entries is the abstract tree, a
--   list of entries in the order of their keys; Btree.Layout and Btree.Refine say how it lies in a
--   leaf and in memory (`Holds`, `IsTreeOf`). No code splits a node, so a tree has one leaf.
-- - Ecdsa: lib/ic0/threshold_ecdsa.c. Calls and callbacks are events (Ecdsa.Histories).
-- - EvmLogs: `build_eth_get_logs_json` and `parse_and_store_logs` of lib/ic0/canister_entry.c, with the
--   functions that they call. EvmLogs.Objects is the array of a reply, EvmLogs.Format a log in it.
-- - FetchLogs: `canister_update_fetchEvmLogs` and its callbacks, over EvmLogs and Idris.
-- - Monitor: `canister_update_registerMonitor` of lib/ic0/canister_entry.c on the arguments that
--   Monitor.Arguments reads; Monitor.Status is `canister_query_getMonitoringStatus`, and Monitor.Poll
--   `canister_update_pollContract`, `build_batch_query_json` and the callbacks of the batch.
-- - Idris: the calls into the Idris2 code, `call_idris2`, `call_idris2_with_arg`, `call_idris2_2arg` and
--   `encode_evm_rpc_idris2` of lib/ic0/canister_entry.c, with the entry points that only make them.
--   `Machine` is what that code can reach; the closure itself is a parameter of each function.
-- - Auditors: `canister_query_getVersion` and the entry points for auditors.
-- - Outcalls: `canister_update_testHttpGet` and `canister_update_testEthBlockNumber`.
-- - Lifecycle: `canister_init`, `canister_pre_upgrade` and `canister_post_upgrade`. They join Snapshot,
--   SqlBridge and Idris; Lifecycle.Upgrade is an upgrade as a whole.
-- - Http: the messages of HTTP outcalls (`build_simple_get_request`, `build_eth_block_number_request`,
--   `canister_query_transform`), and in Http.Gateway `canister_query_http_request`, which answers a
--   browser. Http.Types and Http.Response read Candid's type tables and values.
-- - HttpReply: `parse_http_response_body`, `extract_jsonrpc_result` and `http_reply_callback`.
--   HttpReply.Outcall is a reply of the management canister, with its fields in Candid's order.
-- - Reject: the three callbacks for rejections.
-- - EvmRpc: `canister_update_testEvmRpc`, `check_rpc_error` and `evm_rpc_reply_callback`. The answer of the
--   system to the call is an argument; `Answer` is what the handler does at its end.
-- - Dictionary: `canister_update_queryDictionary` and `dict_query_reply_callback`. The query that is kept
--   until the reply comes is a state of its own (`Query`).
-- - Handlers: the entry points for proposals and donations in lib/ic0/canister_entry.c, and the
--   counters of lib/ic0/ic0_stubs.c.
--
-- Conventions. Every C variable that lives between calls is a field of a record that the functions
-- take and return. A function that calls the stable memory returns an Option: `none` is a trap of the
-- system, which rolls the message back. Debug output is left out.
--
-- Fuel and bounds. `encode_leb128` takes the number of bytes that may still be written: 10 for a
-- 64-bit and 5 for a 32-bit number, which is enough by the round trips. `parse_leb128` returns `none`
-- where C shifts by 64 bits or more, which is undefined. Decimal digits are written in at most 20
-- rounds, which is enough for 64 bits; `encode_leb128_signed` takes ten rounds and the
-- hexadecimal digits of a 64-bit number sixteen, which are enough too.
-- The loop of `stbt_scan_next` over a chain of leaves takes fuel, and one round is enough, since a
-- tree has one leaf. The loops over entries, slots and bytes are
-- structural recursion. Memory stays below 65536 pages, all that 32-bit addresses reach.
--
-- The skip over a type table or the headers of a reply takes the announced number of rounds.
--
-- Not modelled: in lib/ic0/canister_entry.c the entry points that answer a constant text or number; the
-- WASI stubs, which do nothing; the pass-through wrappers of the system's functions; the Idris2
-- sources, which C reaches only as a compiled closure.
pub mod Base
pub mod Word
pub mod Stable
pub mod StableKv
pub mod SqlBridge
pub mod Snapshot
pub mod Leb128
pub mod Candid
pub mod Account
pub mod FfiBridge
pub mod Btree
pub mod Handlers
pub mod Ecdsa
pub mod EvmLogs
pub mod Monitor
pub mod Idris
pub mod Lifecycle
pub mod Http
pub mod HttpReply
pub mod Reject
pub mod EvmRpc
pub mod Dictionary
pub mod FetchLogs
pub mod Outcalls
pub mod Auditors
