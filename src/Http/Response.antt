-- ===== src/Http/Response.antt =====
-- The response that lib/ic0/canister_entry.c gives the HTTP gateway is a Candid message of its type.
use idris2_ouc.Base.{
  ℕ, zero, suc, ◌+◌, ◌*◌, ◌/◌, ◌<◌, ◌≡◌, refl, ap, List, [], ◌∷◌, ◌++◌, Option, some, none, ◌>>=◌,
  length, arith,
}
use idris2_ouc.Word.{u8}
use idris2_ouc.Candid.Reader.{read_bytes, read_bytes-encode}
use idris2_ouc.Leb128.{encode_leb128, parse_leb128, encode_leb128_signed, shr7, parse_leb128_loop}
use idris2_ouc.Leb128.RoundTrip.{parse-encode}
use idris2_ouc.Ecdsa.{type_code}
use idris2_ouc.Http.{response_types, build_http_response, content_type_key}
use idris2_ouc.Http.Types.{
  entry, primitive, Entry, vec, rows, Message, read_ref, read_fields, read_entry, read_entries,
  read_refs, read_message,
}

-- The type HttpResponse: a body of bytes, the headers as pairs of texts, and a 16-bit status code. The
-- numbers of the fields are the hashes of their names.
abbrev pub response_table : List Entry
response_table =
    rows ((0, primitive 15) ∷ (1, primitive 15) ∷ [])
    ∷ vec (primitive 5)
    ∷ vec (entry 0)
    ∷ rows ((1092319906, entry 1) ∷ (1661489734, entry 2) ∷ (3475804314, primitive 6) ∷ [])
    ∷ []

unfoldable pub read_headers : ℕ → List ℕ → Option (List (List ℕ × List ℕ) × List ℕ)
read_headers zero bs = some ([], bs)
read_headers (suc n) bs = do
  (key, bs1) ← read_bytes bs
  (value, bs2) ← read_bytes bs1
  (others, bs3) ← read_headers n bs2
  some ((key, value) ∷ others, bs3)

-- A response as it is read by its type: body, headers and status code, and what is left behind them.
pub record HttpResponse : Type 0 where
  pub body : List ℕ
  pub headers : List (List ℕ × List ℕ)
  pub status_code : ℕ
  pub behind : List ℕ

unfoldable pub read_status : List ℕ → Option (ℕ × List ℕ)
read_status [] = none
read_status (a ∷ []) = none
read_status (a ∷ b ∷ bs) = some (a + 256 * b, bs)

unfoldable pub read_values : List ℕ → Option HttpResponse
read_values bs = do
  (body, bs1) ← read_bytes bs
  (n, bs2) ← parse_leb128 bs1
  (headers, bs3) ← read_headers n bs2
  (status_code, bs4) ← read_status bs3
  some (record { body = body; headers = headers; status_code = status_code; behind = bs4 })

types_lem :
    (values : List ℕ)
    → read_message (response_types ++ values)
      ≡ some (record { table = response_table; arguments = entry 3 ∷ []; values = values })
unfolding read_message response_types read_entries read_entry read_fields read_ref read_refs
    type_code encode_leb128 encode_leb128_signed shr7 parse_leb128 parse_leb128_loop
types_lem values = refl

header_lem :
    (content_type rest : List ℕ)
    → length content_type < 65536
    → read_headers 1 (
        encode_leb128 10 (length content_type_key)
        ++ (content_type_key ++ (encode_leb128 10 (length content_type) ++ (content_type ++ rest))))
      ≡ some ((content_type_key, content_type) ∷ [], rest)
unfolding read_headers
header_lem content_type rest h =
    rw
      (
        read_bytes-encode content_type_key
            (encode_leb128 10 (length content_type) ++ (content_type ++ rest))
            (length content_type_key) refl (omega arith),
        read_bytes-encode content_type rest (length content_type) refl h,
      )
      refl

status_lem :
    (status_code : ℕ)
    → status_code < 65536
    → read_status (u8 status_code ∷ u8 (status_code / 256) ∷ []) ≡ some (status_code, [])
unfolding read_status
status_lem status_code h =
    ap (λ n. some (n, [])) {x = u8 status_code + 256 * u8 (status_code / 256)} {y = status_code}
      (omega arith)

-- What the gateway is given is one Candid value of the type HttpResponse, with nothing behind it: it has
-- the body, the one header Content-Type with the content type, and the 16-bit status
-- code (a body and a content type below 65536 bytes).
pub read-build :
    (status_code : ℕ) (content_type body : List ℕ)
    → status_code < 65536
    → length content_type < 65536
    → length body < 65536
    → (m : Message) × (read_message (build_http_response status_code content_type body) ≡ some m)
      × (m.table ≡ response_table)
      × (m.arguments ≡ entry 3 ∷ [])
      × (read_values m.values
          ≡ some (record {
            body = body;
            headers = (content_type_key, content_type) ∷ [];
            status_code = status_code;
            behind = [];
          }))
unfolding build_http_response read_values
read-build status_code content_type body hs hc hb =
    let end = u8 status_code ∷ u8 (status_code / 256) ∷ [] in
    let header =
      encode_leb128 10 (length content_type_key)
      ++ (content_type_key ++ (encode_leb128 10 (length content_type) ++ (content_type ++ end))) in
    let values = encode_leb128 10 (length body) ++ (body ++ (encode_leb128 10 1 ++ header)) in
    (
      record { table = response_table; arguments = entry 3 ∷ []; values = values },
      types_lem values,
      refl,
      refl,
      rw
          (
            read_bytes-encode body (encode_leb128 10 1 ++ header) (length body) refl hb,
            parse-encode 1 header (omega arith),
            header_lem content_type end hc,
            status_lem status_code hs,
          )
          refl,
    )
