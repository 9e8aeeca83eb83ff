-- ===== src/Http/Route.antt =====
-- Which response lib/ic0/canister_entry.c gives to an HTTP request, and that it fits its buffer.
use idris2_ouc.Base.{
  ◌/◌, ℕ, ◌+◌, ◌≤◌, ◌<◌, ◌≡◌, ◌≢◌, ◌∙◌, refl, sym, ap, List, [], ◌∷◌, ◌++◌, true, length,
  length-append, arith, All, drop, get_or, Bool-cases, inl, inr,
}
use idris2_ouc.Base.Split.{drop-append}
use idris2_ouc.Ecdsa.{type_code}
use idris2_ouc.Leb128.{encode_leb128_signed, shr7}
use idris2_ouc.Candid.{load_candid_args}
use idris2_ouc.Candid.RoundTrip.{load_short}
use idris2_ouc.Word.{u8}
use idris2_ouc.EvmLogs.{begins}
use idris2_ouc.Handlers.{
  Counters, last_digits, decimal, digits_loop, ouc_get_auditor_count, ouc_get_proposal_count,
}
use idris2_ouc.Leb128.{encode_leb128}
use idris2_ouc.Leb128.RoundTrip.{length-encode_leb128}
use idris2_ouc.Http.{build_http_response, response_types, json_content_type, content_type_key}
use idris2_ouc.Http.Gateway.{
  path_chars, find_path, url_path, status_path, status_json, canister_query_http_request,
  running_text, proposals_text, features_text, html_content_type,
}
use idris2_ouc.Http.Gateway.Dashboard.{dashboard_html}

skip_pre :
    (pre : List ℕ) (prev : ℕ) (bs : List ℕ)
    → All (λ c. c ≢ b'/') pre
    → 10 < length bs
    → (p : ℕ) × (find_path prev (pre ++ bs) ≡ find_path p bs)
unfolding find_path
skip_pre [] prev bs h long = (prev, refl)
skip_pre (c ∷ pre) prev bs h long =
    let (p, e) = skip_pre pre c bs h.1 long in (p, ground (arith, e, length-append pre bs))

found_path :
    (n prev : ℕ) (post : List ℕ)
    → n < 32
    → find_path prev (n ∷ status_path ++ post) ≡ path_chars 127 (status_path ++ post)
unfolding find_path
found_path n prev post h = ground arith

begins-path_chars :
    (post : List ℕ) → begins status_path (path_chars 127 (status_path ++ post)) ≡ true
unfolding begins path_chars
begins-path_chars post = refl

-- Below 1000 the digits are all of them.
last_digits-decimal : (n : ℕ) → n < 1000 → last_digits n ≡ decimal n
unfolding last_digits decimal digits_loop
last_digits-decimal n h = ground arith

-- A message whose url is the path /api/status, or starts with it, is answered with the status as JSON,
-- which has the numbers of auditors and of proposals in decimal: the url stands behind a byte below
-- 32, such as its length, there is no slash between the tenth byte and this one, the message has
-- at most 1024 bytes, and both numbers are below 1000.
pub http_request-status_json :
    (first pre post : List ℕ) (n : ℕ) (c : Counters)
    → length first ≡ 10
    → All (λ x. x ≢ b'/') pre
    → n < 32
    → 22 + length pre + length post ≤ 1024
    → c.auditors < 1000
    → c.proposals < 1000
    → canister_query_http_request (first ++ (pre ++ (n ∷ status_path ++ post))) c
      ≡ build_http_response 200 json_content_type (
          running_text
          ++ (decimal c.auditors ++ (proposals_text ++ (decimal c.proposals ++ features_text))))
unfolding canister_query_http_request url_path load_candid_args status_json ouc_get_auditor_count
    ouc_get_proposal_count
http_request-status_json first pre post n c h10 hpre hn short ha hp =
    let msg = first ++ (pre ++ (n ∷ status_path ++ post)) in
    let (p, e) = skip_pre pre (get_or msg 9 0) (n ∷ status_path ++ post) hpre (omega arith) in
    rw
      (
        canister_query_http_request,
        loaded,
        behind,
        e,
        found_path n p post hn,
        begins-path_chars post,
        last_digits-decimal c.auditors ha,
        last_digits-decimal c.proposals hp,
      )
      refl
  where
    loaded :
        load_candid_args (first ++ (pre ++ (n ∷ status_path ++ post)))
        ≡ first ++ (pre ++ (n ∷ status_path ++ post))
    loaded = load_short (first ++ (pre ++ (n ∷ status_path ++ post))) (
        omega (
          arith,
          length-append first (pre ++ (n ∷ status_path ++ post)),
          length-append pre (n ∷ status_path ++ post),
        ))

    behind :
        drop 10 (first ++ (pre ++ (n ∷ status_path ++ post))) ≡ pre ++ (n ∷ status_path ++ post)
    behind =
        ap (λ k. drop k (first ++ (pre ++ (n ∷ status_path ++ post)))) (sym h10)
        ∙ drop-append first (pre ++ (n ∷ status_path ++ post))

length-last_digits : (n : ℕ) → length (last_digits n) ≤ 3
unfolding last_digits
length-last_digits n = ground arith

length-types : length response_types ≡ 37
unfolding response_types type_code encode_leb128 encode_leb128_signed shr7
length-types = refl

length-status_json : (c : Counters) → length (status_json c) ≤ 511
unfolding status_json
length-status_json c = omega (
  arith,
  length-append (last_digits (ouc_get_auditor_count c))
      (proposals_text ++ (last_digits (ouc_get_proposal_count c) ++ features_text)),
  length-append (last_digits (ouc_get_proposal_count c)) features_text,
  length-last_digits (ouc_get_auditor_count c),
  length-last_digits (ouc_get_proposal_count c),
)

pub length-build :
    (status_code : ℕ) (content_type body : List ℕ)
    → length (build_http_response status_code content_type body)
      ≤ 91 + length body + length content_type
unfolding build_http_response
length-build status_code content_type body =
    let end = u8 status_code ∷ u8 (status_code / 256) ∷ [] in
    let typed = encode_leb128 10 (length content_type) ++ (content_type ++ end) in
    let header = encode_leb128 10 (length content_type_key) ++ (content_type_key ++ typed) in
    let values = encode_leb128 10 (length body) ++ (body ++ (encode_leb128 10 1 ++ header)) in
    omega (
      arith,
      length-append response_types values,
      length-types,
      length-append (encode_leb128 10 (length body)) (body ++ (encode_leb128 10 1 ++ header)),
      length-append body (encode_leb128 10 1 ++ header),
      length-append (encode_leb128 10 1) header,
      length-append (encode_leb128 10 (length content_type_key)) (content_type_key ++ typed),
      length-append content_type_key typed,
      length-append (encode_leb128 10 (length content_type)) (content_type ++ end),
      length-append content_type end,
      length-encode_leb128 10 (length body),
      length-encode_leb128 10 1,
      length-encode_leb128 10 (length content_type_key),
      length-encode_leb128 10 (length content_type),
    )

length-dashboard : length dashboard_html ≡ 754
unfolding dashboard_html
length-dashboard = refl

-- The response to every message fits the buffer of 4096 bytes, and its JSON the one of 512.
pub http_request-fits :
    (msg : List ℕ) (c : Counters)
    → (length (canister_query_http_request msg c) ≤ 4096) × (length (status_json c) < 512)
unfolding canister_query_http_request
http_request-fits msg c = (
  elim (Bool-cases (begins status_path (url_path (load_candid_args msg)))) [
    | inl status ↦
        rw status
          (omega (arith, length-build 200 json_content_type (status_json c), length-status_json c))
    | inr other ↦
        rw other
          (omega (arith, length-build 200 html_content_type dashboard_html, length-dashboard))
  ],
  omega (arith, length-status_json c),
)
