-- ===== src/HttpReply/Tests.antt =====
-- Concrete replies to HTTP outcalls.
use idris2_ouc.Base.{ℕ, ◌<◌, ◌≡◌, List, [], ◌∷◌, ◌++◌, some, arith, length, take}
use idris2_ouc.Leb128.{encode_leb128}
use idris2_ouc.Candid.{reply_candid_text}
use idris2_ouc.HttpReply.{
  parse_http_response_body, candid_failed_text, raw_len_text, digits4, http_reply_callback,
}
use idris2_ouc.HttpReply.Outcall.{
  outcall_reply, headers_text, counted, parse-outcall_reply, callback-outcall_reply,
}

-- The header a: b.
abbrev headers : List (List ℕ × List ℕ)
headers = (b'b' ∷ [], b'a' ∷ []) ∷ []

parse-outcall_reply_example :
    parse_http_response_body (outcall_reply 200 [] headers)
    ≡ some (record { code = 0; status = 200; body_len = 1; body = take 1 (headers_text headers) })
parse-outcall_reply_example = parse-outcall_reply 200 headers (omega arith) short
  where
    short : length (outcall_reply 200 [] headers) < 2147483648
    short = unfold outcall_reply counted headers_text encode_leb128 in omega arith

-- The body {"result":"0x1f"} behind its first brace.
abbrev body_rest : List ℕ
body_rest =
    b'"' ∷ b'r' ∷ b'e' ∷ b's' ∷ b'u' ∷ b'l' ∷ b't' ∷ b'"' ∷ b':' ∷ b'"' ∷ b'0' ∷ b'x' ∷ b'1' ∷ b'f'
    ∷ b'"' ∷ b'}' ∷ []

callback-outcall_reply_example :
    http_reply_callback (outcall_reply 200 (b'{' ∷ body_rest) headers)
    ≡ some (
        reply_candid_text (
          candid_failed_text
          ++ (b'-' ∷ b'4' ∷ raw_len_text
              ++ (digits4 (length (outcall_reply 200 (b'{' ∷ body_rest) headers)) ++ (b'}' ∷ [])))))
callback-outcall_reply_example = callback-outcall_reply 200 body_rest headers (omega arith) short
  where
    short : length (body_rest ++ counted headers) < 123
    short = unfold counted headers_text encode_leb128 in omega arith
