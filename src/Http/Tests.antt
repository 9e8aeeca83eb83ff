-- ===== src/Http/Tests.antt =====
-- Concrete messages of HTTP.
use idris2_ouc.Base.{◌≡◌, refl, [], ◌∷◌, ◌++◌, some, none, arith, replicate}
use idris2_ouc.Leb128.{parse_leb128, parse_leb128_loop}
use idris2_ouc.Handlers.{Counters, decimal, digits_loop}
use idris2_ouc.Http.{
  build_http_response, json_content_type, content_type_key, canister_query_transform,
}
use idris2_ouc.Http.Types.{
  Message, entry, read_message, read_entries, read_entry, read_fields, read_ref,
}
use idris2_ouc.Http.Response.{response_table, read_values, read-build}
use idris2_ouc.Http.Gateway.{
  status_path, running_text, proposals_text, features_text, canister_query_http_request,
}
use idris2_ouc.Http.Route.{http_request-status_json}

read-build_example :
    (m : Message) × (read_message (build_http_response 404 json_content_type (b'{' ∷ b'}' ∷ []))
      ≡ some m)
    × (m.table ≡ response_table)
    × (m.arguments ≡ entry 3 ∷ [])
    × (read_values m.values
        ≡ some (record {
          body = b'{' ∷ b'}' ∷ [];
          headers = (content_type_key, json_content_type) ∷ [];
          status_code = 404;
          behind = [];
        }))
read-build_example =
    read-build 404 json_content_type (b'{' ∷ b'}' ∷ []) (omega arith) (omega arith) (omega arith)

abbrev counters : Counters
counters = record { proposals = 12; auditors = 3; state_initialized = 1 }

http_request-status_json_example :
    canister_query_http_request
      (replicate 10 0 ++ ((b'G' ∷ b'E' ∷ b'T' ∷ []) ++ (11 ∷ status_path ++ (0 ∷ []))))
      counters
    ≡ build_http_response 200 json_content_type
        (running_text ++ (b'3' ∷ proposals_text ++ (b'1' ∷ b'2' ∷ features_text)))
unfolding decimal digits_loop
http_request-status_json_example =
    http_request-status_json (replicate 10 0) (b'G' ∷ b'E' ∷ b'T' ∷ []) (0 ∷ []) 11 counters refl
      (ground arith) (omega arith) (omega arith) (omega arith) (omega arith)

-- The reply of the transform is not a Candid message: it has a vector inside a record's type.
transform_refused : read_message canister_query_transform ≡ none
unfolding read_message canister_query_transform read_entries read_entry read_fields read_ref
    parse_leb128 parse_leb128_loop
transform_refused = refl
