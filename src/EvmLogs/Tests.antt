-- ===== src/EvmLogs/Tests.antt =====
-- A concrete request for logs in lib/ic0/canister_entry.c.
use idris2_ouc.Base.{◌∷◌, ◌≡◌, [], arith}
use idris2_ouc.EvmLogs.{build_eth_get_logs_json, parse_hex_uint64}
use idris2_ouc.EvmLogs.Request.{from_field, to_field, field_text, field_text-build}

field_text-build_example :
    let json = build_eth_get_logs_json 31 4294967301 (b'0' ∷ b'x' ∷ []) in
    (parse_hex_uint64 (field_text from_field json) ≡ 31)
    × (parse_hex_uint64 (field_text to_field json) ≡ 4294967301)
field_text-build_example =
    field_text-build 31 4294967301 (b'0' ∷ b'x' ∷ []) (omega arith) (omega arith)
