-- ===== src/Http.antt =====
-- The Candid messages of HTTP in lib/ic0/canister_entry.c: the requests of HTTP outcalls, the reply of
-- the transform, and the response that the gateway is given.
pub mod Types
pub mod Response
pub mod Gateway
pub mod Route
mod Tests
use idris2_ouc.Base.{ℕ, ◌+◌, ◌-◌, ◌/◌, ◌%◌, List, [], ◌∷◌, ◌++◌, length, joined}
use idris2_ouc.Word.{u8}
use idris2_ouc.Word.Bytes.{write_u64}
use idris2_ouc.Candid.{didl, encode_candid_text_value, encode_candid_blob_value}
use idris2_ouc.Leb128.{encode_leb128}
use idris2_ouc.Ecdsa.{type_code}

-- `encode_leb128_unsigned` of an int32_t or of a constant.
abbrev pub number : ℕ → List ℕ
number v = encode_leb128 10 v

-- The type table of a request and its one argument: types 0 to 7, where 7 is HttpRequestArgs.
unfoldable pub request_types : List ℕ
request_types = joined (
    didl
    ∷ (8 ∷ [])
    ∷ type_code 20
    ∷ number 2
    ∷ number 0x31B87F71
    ∷ type_code 15
    ∷ number 0x48FF724B
    ∷ type_code 15
    ∷ type_code 19
    ∷ number 0
    ∷ type_code 21
    ∷ number 3
    ∷ number 0x004E8096
    ∷ type_code 1
    ∷ number 0x450B2920
    ∷ type_code 1
    ∷ number 0x4A5C8460
    ∷ type_code 1
    ∷ type_code 18
    ∷ type_code 8
    ∷ type_code 19
    ∷ type_code 5
    ∷ type_code 18
    ∷ number 4
    ∷ type_code 18
    ∷ type_code 16
    ∷ type_code 20
    ∷ number 6
    ∷ number 0x00592B6F
    ∷ type_code 15
    ∷ number 0x095AF6E1
    ∷ number 2
    ∷ number 0x12762B68
    ∷ number 3
    ∷ number 0x411B7AA2
    ∷ number 5
    ∷ number 0x45932D6C
    ∷ number 6
    ∷ number 0x63085246
    ∷ number 1
    ∷ (1 ∷ [])
    ∷ number 7
    ∷ [])

abbrev pub get_url : List ℕ
get_url =
    b'h' ∷ b't' ∷ b't' ∷ b'p' ∷ b's' ∷ b':' ∷ b'/' ∷ b'/' ∷ b'h' ∷ b't' ∷ b't' ∷ b'p' ∷ b'b' ∷ b'i'
    ∷ b'n' ∷ b'.' ∷ b'o' ∷ b'r' ∷ b'g' ∷ b'/' ∷ b'g' ∷ b'e' ∷ b't' ∷ []

unfoldable pub build_simple_get_request : List ℕ
build_simple_get_request = joined (
    request_types
    ∷ encode_candid_text_value get_url
    ∷ number 0
    ∷ (0 ∷ [])
    ∷ (0 ∷ [])
    ∷ (0 ∷ [])
    ∷ (0 ∷ [])
    ∷ [])

abbrev pub rpc_url : List ℕ
rpc_url =
    b'h' ∷ b't' ∷ b't' ∷ b'p' ∷ b's' ∷ b':' ∷ b'/' ∷ b'/' ∷ b'm' ∷ b'a' ∷ b'i' ∷ b'n' ∷ b'n' ∷ b'e'
    ∷ b't' ∷ b'.' ∷ b'b' ∷ b'a' ∷ b's' ∷ b'e' ∷ b'.' ∷ b'o' ∷ b'r' ∷ b'g' ∷ []

abbrev pub block_number_json : List ℕ
block_number_json =
    b'{' ∷ b'"' ∷ b'j' ∷ b's' ∷ b'o' ∷ b'n' ∷ b'r' ∷ b'p' ∷ b'c' ∷ b'"' ∷ b':' ∷ b'"' ∷ b'2' ∷ b'.'
    ∷ b'0' ∷ b'"' ∷ b',' ∷ b'"' ∷ b'm' ∷ b'e' ∷ b't' ∷ b'h' ∷ b'o' ∷ b'd' ∷ b'"' ∷ b':' ∷ b'"'
    ∷ b'e' ∷ b't' ∷ b'h' ∷ b'_' ∷ b'b' ∷ b'l' ∷ b'o' ∷ b'c' ∷ b'k' ∷ b'N' ∷ b'u' ∷ b'm' ∷ b'b'
    ∷ b'e' ∷ b'r' ∷ b'"' ∷ b',' ∷ b'"' ∷ b'p' ∷ b'a' ∷ b'r' ∷ b'a' ∷ b'm' ∷ b's' ∷ b'"' ∷ b':'
    ∷ b'[' ∷ b']' ∷ b',' ∷ b'"' ∷ b'i' ∷ b'd' ∷ b'"' ∷ b':' ∷ b'1' ∷ b'}' ∷ []

abbrev pub json_content_type : List ℕ
json_content_type =
    b'a' ∷ b'p' ∷ b'p' ∷ b'l' ∷ b'i' ∷ b'c' ∷ b'a' ∷ b't' ∷ b'i' ∷ b'o' ∷ b'n' ∷ b'/' ∷ b'j' ∷ b's'
    ∷ b'o' ∷ b'n' ∷ []

abbrev pub content_type_key : List ℕ
content_type_key =
    b'C' ∷ b'o' ∷ b'n' ∷ b't' ∷ b'e' ∷ b'n' ∷ b't' ∷ b'-' ∷ b'T' ∷ b'y' ∷ b'p' ∷ b'e' ∷ []

unfoldable pub build_eth_block_number_request : List ℕ
build_eth_block_number_request = joined (
    request_types
    ∷ encode_candid_text_value rpc_url
    ∷ number 2
    ∷ (1 ∷ [])
    ∷ write_u64 2048
    ∷ (1 ∷ [])
    ∷ encode_candid_blob_value block_number_json
    ∷ (0 ∷ [])
    ∷ (1 ∷ [])
    ∷ encode_candid_text_value json_content_type
    ∷ encode_candid_text_value content_type_key
    ∷ [])

-- The reply of the transform, whatever the message is.
unfoldable pub canister_query_transform : List ℕ
canister_query_transform = joined (
    didl
    ∷ (3 ∷ [])
    ∷ (0x6C ∷ 2 ∷ [])
    ∷ (0xF1 ∷ 0xBF ∷ 0xC2 ∷ 0x8D ∷ 0x03 ∷ 0x71 ∷ [])
    ∷ (0xCB ∷ 0xEC ∷ 0xE7 ∷ 0xC7 ∷ 0x04 ∷ 0x71 ∷ [])
    ∷ (0x6D ∷ 0 ∷ [])
    ∷ (0x6C ∷ 3 ∷ [])
    ∷ (0xA2 ∷ 0xF5 ∷ 0xEB ∷ 0x88 ∷ 0x04 ∷ 0x6D ∷ 0x7B ∷ [])
    ∷ (0xC6 ∷ 0x84 ∷ 0xA9 ∷ 0x98 ∷ 0x06 ∷ 1 ∷ [])
    ∷ (0xE7 ∷ 0xDE ∷ 0xBF ∷ 0xB7 ∷ 0x0C ∷ 0x7D ∷ [])
    ∷ (1 ∷ 2 ∷ [])
    ∷ (0 ∷ 0 ∷ 0xC8 ∷ 0x01 ∷ [])
    ∷ [])

-- The type table of a response and its one argument: types 0 to 3, where 3 is HttpResponse.
unfoldable pub response_types : List ℕ
response_types = joined (
    didl
    ∷ (4 ∷ [])
    ∷ type_code 20
    ∷ number 2
    ∷ number 0
    ∷ type_code 15
    ∷ number 1
    ∷ type_code 15
    ∷ type_code 19
    ∷ type_code 5
    ∷ type_code 19
    ∷ number 0
    ∷ type_code 20
    ∷ number 3
    ∷ number 0x411b7aa2
    ∷ number 1
    ∷ number 0x63085246
    ∷ number 2
    ∷ number 0xcf2c909a
    ∷ type_code 6
    ∷ number 1
    ∷ number 3
    ∷ [])

-- The content type and the body are texts.
unfoldable pub build_http_response : ℕ → List ℕ → List ℕ → List ℕ
build_http_response status_code content_type body =
    response_types
    ++ (number (length body)
        ++ (body
            ++ (number 1
                ++ (number (length content_type_key)
                    ++ (content_type_key
                        ++ (number (length content_type)
                            ++ (content_type
                                ++ (u8 status_code ∷ u8 (status_code / 256) ∷ []))))))))
