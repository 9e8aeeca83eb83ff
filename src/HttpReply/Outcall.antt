-- ===== src/HttpReply/Outcall.antt =====
-- What lib/ic0/canister_entry.c makes of a reply to an HTTP outcall.
use idris2_ouc.Base.{
  ℕ, zero, suc, ◌+◌, ◌≤◌, ◌<◌, ◌≡◌, ◌∙◌, refl, ap, List, [], ◌∷◌, ◌++◌, some, ◌>>=◌, length, take,
  arith, length-append, ltb, false,
}
use idris2_ouc.Base.Split.{take_all}
use idris2_ouc.Word.{u32, IsU64}
use idris2_ouc.Leb128.{encode_leb128}
use idris2_ouc.Leb128.RoundTrip.{one-le-length-encode, length-encode_leb128}
use idris2_ouc.Candid.{reply_candid_text, didl}
use idris2_ouc.Handlers.{text_chars}
use idris2_ouc.HttpReply.{
  leb128_at_loop, parse_leb128_at, skip_fields, skip_type, skip_type_table, skip_headers,
  parse_body, parse_headers_and_body, parse_http_response_body, candid_failed_text, raw_len_text,
  digits4, failed, reply_text, http_reply_callback,
}
use idris2_ouc.HttpReply.Values.{IsAt, IsAt-append, parse_at-encode, drop_behind}

-- A type table of the management canister's http_response, record { status : nat; headers : vec record
-- { name : text; value : text }; body : blob }, where the fields of a record stand in the order of
-- their hashes: status, body, headers, and value, name.
abbrev pub outcall_types : List ℕ
outcall_types =
    didl
    ++ (4 ∷ (0x6C ∷ 3 ∷ 0xB2 ∷ 0xCE ∷ 0xEF ∷ 0x2F ∷ 0x7D ∷ [])
        ++ (0xA2 ∷ 0xF5 ∷ 0xED ∷ 0x88 ∷ 0x04 ∷ 1 ∷ 0xC6 ∷ 0xA4 ∷ 0xA1 ∷ 0x98 ∷ 0x06 ∷ 2 ∷ [])
        ++ (0x6D ∷ 0x7B ∷ 0x6D ∷ 3 ∷ [])
        ++ (0x6C ∷ 2 ∷ 0xF1 ∷ 0xFE ∷ 0xE1 ∷ 0x8D ∷ 0x03 ∷ 0x71 ∷ [])
        ++ (0xCB ∷ 0xE4 ∷ 0xFD ∷ 0xC7 ∷ 0x04 ∷ 0x71 ∷ [])
        ++ (1 ∷ 0 ∷ []))

-- Headers one behind the other, a value and a name: each text stands behind its length.
unfoldable pub headers_text : List (List ℕ × List ℕ) → List ℕ
headers_text [] = []
headers_text ((value, name) ∷ hs) =
    encode_leb128 10 (length value)
    ++ (value ++ (encode_leb128 10 (length name) ++ (name ++ headers_text hs)))

-- The headers behind their number.
unfoldable pub counted : List (List ℕ × List ℕ) → List ℕ
counted hs = encode_leb128 10 (length hs) ++ headers_text hs

-- A reply with a status, a body and headers.
unfoldable pub outcall_reply : ℕ → List ℕ → List (List ℕ × List ℕ) → List ℕ
outcall_reply status body hs =
    outcall_types
    ++ (encode_leb128 10 status ++ (encode_leb128 10 (length body) ++ (body ++ counted hs)))

types_lem :
    (values : List ℕ)
    → parse_http_response_body (outcall_types ++ values) ≡ (do
      (status, o) ← parse_leb128_at (outcall_types ++ values) 44
      parse_headers_and_body (outcall_types ++ values) status o)
unfolding parse_http_response_body skip_fields skip_type skip_type_table parse_leb128_at
    leb128_at_loop
types_lem values = rw (parse_http_response_body, long) refl
  where
    long : ltb (length (outcall_types ++ values)) 4 ≡ false
    long = ground arith

IsAt-start :
    (values : List ℕ)
    → length (outcall_types ++ values) < 2147483648
    → IsAt (outcall_types ++ values) 44 values
IsAt-start values small = record { rest = refl; end = omega arith; small = small }

-- The status is read, and the length of the body is taken for the number of the headers.
status_lem :
    (status : ℕ) (body : List ℕ) (hs : List (List ℕ × List ℕ))
    → IsU64 status
    → length (outcall_reply status body hs) < 2147483648
    → (o : ℕ) × IsAt (outcall_reply status body hs) o (body ++ counted hs)
      × (parse_http_response_body (outcall_reply status body hs) ≡ (do
        o' ← skip_headers (length body) (outcall_reply status body hs) o
        parse_body (outcall_reply status body hs) status o'))
unfolding outcall_reply parse_headers_and_body
status_lem status body hs h small =
    let n = encode_leb128 10 status in
    let k = encode_leb128 10 (length body) in
    let behind = body ++ counted hs in
    let values = n ++ (k ++ behind) in
    let buf = outcall_types ++ values in
    let h0 = IsAt-start values small in
    let h1 = IsAt-append buf 44 n (k ++ behind) h0 in
    let h2 = IsAt-append buf (44 + length n) k behind h1 in
    (
      44 + length n + length k,
      h2,
      types_lem values
          ∙ rw
              (
                parse_at-encode buf 44 status (k ++ behind) h0 h,
                parse_headers_and_body,
                parse_at-encode buf (44 + length n) (length body) behind h1
                    (omega (arith, h2.end, small, length-append body (counted hs))),
              )
              refl,
    )

headers_long : (hs : List (List ℕ × List ℕ)) → length hs ≤ length (headers_text hs)
unfolding headers_text
headers_long [] = omega arith
headers_long ((value, name) ∷ hs) =
    let n = encode_leb128 10 (length value) in
    let k = encode_leb128 10 (length name) in
    omega (
      arith,
      headers_long hs,
      one-le-length-encode 9 (length value),
      length-append n (value ++ (k ++ (name ++ headers_text hs))),
      length-append value (k ++ (name ++ headers_text hs)),
      length-append k (name ++ headers_text hs),
      length-append name (headers_text hs),
    )

announced_lem :
    (buf rest : List ℕ) (status offset n : ℕ)
    → IsAt buf offset (encode_leb128 10 n ++ rest)
    → n ≤ length rest
    → parse_body buf status offset
      ≡ some (record { code = 0; status = status; body_len = n; body = take n rest })
unfolding parse_body
announced_lem buf rest status offset n h fits =
    let later = IsAt-append buf offset (encode_leb128 10 n) rest h in
    ground (
      arith,
      parse_at-encode buf offset n rest h (omega (arith, fits, later.end, later.small)),
      later.rest,
      later.end,
      later.small,
    )

-- A reply to an outcall with an empty body and any headers: the status is found, but the number of the
-- headers is taken for the length of the body, and as many bytes of the headers for the body. (A
-- 64-bit status, a message below 2^31 bytes.)
pub parse-outcall_reply :
    (status : ℕ) (hs : List (List ℕ × List ℕ))
    → IsU64 status
    → length (outcall_reply status [] hs) < 2147483648
    → parse_http_response_body (outcall_reply status [] hs)
      ≡ some (record {
        code = 0;
        status = status;
        body_len = length hs;
        body = take (length hs) (headers_text hs);
      })
unfolding skip_headers
parse-outcall_reply status hs h small =
    let (o, at, e) = status_lem status [] hs h small in
    e
    ∙ announced_lem (outcall_reply status [] hs) (headers_text hs) status o (length hs)
        (unfold counted in at) (headers_long hs)

-- Behind the end of the buffer every number is 0.
past_lem :
    (buf : List ℕ) (offset : ℕ)
    → length buf ≤ offset
    → offset < 2147483648
    → parse_leb128_at buf offset ≡ some (0, offset)
unfolding parse_leb128_at leb128_at_loop
past_lem buf offset h small = ground (arith, drop_behind offset buf h)

past_headers :
    (n : ℕ) (buf : List ℕ) (offset : ℕ)
    → length buf ≤ offset
    → offset < 2147483648
    → skip_headers n buf offset ≡ some offset
unfolding skip_headers
past_headers zero buf offset h small = refl
past_headers (suc n) buf offset h small =
    rw (past_lem buf offset h small, same, past_lem buf offset h small, same)
      (past_headers n buf offset h small)
  where
    same : u32 (offset + 0) ≡ offset
    same = omega arith

past_body :
    (buf : List ℕ) (status offset : ℕ)
    → length buf < offset
    → offset < 2147483648
    → parse_body buf status offset ≡ some (failed 4 status)
unfolding parse_body
past_body buf status offset h small = ground (arith, past_lem buf offset (omega arith) small)

-- The brace at the start of the body is taken for the length of a header's name, 123.
brace_lem :
    (n : ℕ) (buf rest : List ℕ) (offset : ℕ)
    → IsAt buf offset (b'{' ∷ rest)
    → length rest < 123
    → length buf < 2147483000
    → skip_headers (suc n) buf offset ≡ some (offset + 124)
unfolding skip_headers
brace_lem n buf rest offset h short small =
    rw (name, next, past_lem buf (offset + 124) past (omega (arith, h.end)), next2)
      (past_headers n buf (offset + 124) past (omega (arith, h.end)))
  where
    past : length buf ≤ offset + 124
    past = omega (arith, h.end)

    name : parse_leb128_at buf offset ≡ some (123, offset + 1)
    name = unfold parse_leb128_at leb128_at_loop in ground (arith, h.rest, h.end)

    next : u32 (offset + 1 + 123) ≡ offset + 124
    next = omega (arith, h.end)

    next2 : u32 (offset + 124 + 0) ≡ offset + 124
    next2 = omega (arith, h.end)

length-outcall_reply :
    (status : ℕ) (rest : List ℕ) (hs : List (List ℕ × List ℕ))
    → length (rest ++ counted hs) < 123
    → length (outcall_reply status (b'{' ∷ rest) hs) ≤ 200
unfolding outcall_reply
length-outcall_reply status rest hs short =
    let n = encode_leb128 10 status in
    let k = encode_leb128 10 (length (b'{' ∷ rest)) in
    omega (
      arith,
      short,
      length-encode_leb128 10 status,
      length-encode_leb128 10 (length (b'{' ∷ rest)),
      length-append n (k ++ (b'{' ∷ rest ++ counted hs)),
      length-append k (b'{' ∷ rest ++ counted hs),
    )

failed_chars :
    (raw_len status : ℕ)
    → text_chars (reply_text raw_len (failed 4 status))
      ≡ candid_failed_text ++ (b'-' ∷ b'4' ∷ raw_len_text ++ (digits4 raw_len ++ (b'}' ∷ [])))
unfolding reply_text text_chars digits4
failed_chars raw_len status = ground arith

-- A reply to an outcall whose body is a JSON object, short enough that fewer than 123 bytes follow its
-- first brace, is never understood: the canister answers candid_parse_failed with the code -4,
-- whatever the status, the rest of the body and the headers are. (A 64-bit status.)
pub callback-outcall_reply :
    (status : ℕ) (rest : List ℕ) (hs : List (List ℕ × List ℕ))
    → IsU64 status
    → length (rest ++ counted hs) < 123
    → http_reply_callback (outcall_reply status (b'{' ∷ rest) hs)
      ≡ some (
          reply_candid_text (
            candid_failed_text
            ++ (b'-' ∷ b'4' ∷ raw_len_text
                ++ (digits4 (length (outcall_reply status (b'{' ∷ rest) hs)) ++ (b'}' ∷ [])))))
unfolding http_reply_callback
callback-outcall_reply status rest hs h short =
    let msg = outcall_reply status (b'{' ∷ rest) hs in
    let size = length-outcall_reply status rest hs short in
    let (o, at, e) = status_lem status (b'{' ∷ rest) hs h (omega (arith, size)) in
    let parsed : parse_http_response_body msg ≡ some (failed 4 status) =
      e
      ∙ rw (brace_lem (length rest) msg (rest ++ counted hs) o at short (omega (arith, size))) (
          past_body msg status (o + 124) (omega (arith, at.end, short))
            (omega (arith, at.end, size))) in
    rw (http_reply_callback, take_all 4096 msg (omega (arith, size)), parsed)
      (ap (λ t. some (reply_candid_text t)) (failed_chars (length msg) status))
