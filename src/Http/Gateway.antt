-- ===== src/Http/Gateway.antt =====
-- The response to an HTTP request in lib/ic0/canister_entry.c, which looks for the path of the url in
-- the message and answers the status as JSON or the dashboard.
pub mod Dashboard
use idris2_ouc.Base.{
  ℕ, zero, suc, ◌-◌, ◌<◌, List, [], ◌∷◌, ◌++◌, Bool, true, false, ◌&&◌, ◌||◌, not, ltb, leb, ◌==◌,
  if◌then◌else◌, length, take, drop, get_or, joined,
}
use idris2_ouc.Candid.{load_candid_args}
use idris2_ouc.EvmLogs.{begins}
use idris2_ouc.Handlers.{Counters, ouc_get_auditor_count, ouc_get_proposal_count, last_digits}
use idris2_ouc.Http.{build_http_response, json_content_type}
use idris2_ouc.Http.Gateway.Dashboard.{dashboard_html}

-- `for (j = 0; j < 127 && i + j < arg_buf_size; j++)` with `n` rounds left. A `char` is signed: a byte
-- from 128 on is below 32.
unfoldable pub path_chars : ℕ → List ℕ → List ℕ
path_chars zero bs = []
path_chars (suc n) [] = []
path_chars (suc n) (c ∷ cs) =
    let more = path_chars n cs in if c == b'?' || (leb c 32 || leb 128 c) then [] else c ∷ more

-- The search for a slash behind a byte that is not printable, at a byte with `prev` in front of it.
unfoldable pub find_path : ℕ → List ℕ → List ℕ
find_path prev [] = b'/' ∷ []
find_path prev (c ∷ cs) =
    let more = find_path c cs in
    if not (ltb 10 (length (c ∷ cs)))
    then b'/' ∷ []
    else if c == b'/' && (ltb prev 32 || ltb 126 prev)
    then path_chars 127 (c ∷ cs)
    else more

unfoldable pub url_path : List ℕ → List ℕ
url_path arg = find_path (get_or arg 9 0) (drop 10 arg)

abbrev pub status_path : List ℕ
status_path = b'/' ∷ b'a' ∷ b'p' ∷ b'i' ∷ b'/' ∷ b's' ∷ b't' ∷ b'a' ∷ b't' ∷ b'u' ∷ b's' ∷ []

abbrev pub running_text : List ℕ
running_text =
    b'{' ∷ b'"' ∷ b'c' ∷ b'a' ∷ b'n' ∷ b'i' ∷ b's' ∷ b't' ∷ b'e' ∷ b'r' ∷ b'"' ∷ b':' ∷ b'"' ∷ b'n'
    ∷ b'r' ∷ b'k' ∷ b'o' ∷ b'u' ∷ b'-' ∷ b'h' ∷ b'q' ∷ b'a' ∷ b'a' ∷ b'a' ∷ b'-' ∷ b'a' ∷ b'a'
    ∷ b'a' ∷ b'a' ∷ b'h' ∷ b'-' ∷ b'q' ∷ b'q' ∷ b'6' ∷ b'q' ∷ b'a' ∷ b'-' ∷ b'c' ∷ b'a' ∷ b'i'
    ∷ b'"' ∷ b',' ∷ b'"' ∷ b's' ∷ b't' ∷ b'a' ∷ b't' ∷ b'u' ∷ b's' ∷ b'"' ∷ b':' ∷ b'"' ∷ b'r'
    ∷ b'u' ∷ b'n' ∷ b'n' ∷ b'i' ∷ b'n' ∷ b'g' ∷ b'"' ∷ b',' ∷ b'"' ∷ b'v' ∷ b'e' ∷ b'r' ∷ b's'
    ∷ b'i' ∷ b'o' ∷ b'n' ∷ b'"' ∷ b':' ∷ b'1' ∷ b',' ∷ b'"' ∷ b'a' ∷ b'u' ∷ b'd' ∷ b'i' ∷ b't'
    ∷ b'o' ∷ b'r' ∷ b's' ∷ b'"' ∷ b':' ∷ []

abbrev pub proposals_text : List ℕ
proposals_text =
    b',' ∷ b'"' ∷ b'p' ∷ b'r' ∷ b'o' ∷ b'p' ∷ b'o' ∷ b's' ∷ b'a' ∷ b'l' ∷ b's' ∷ b'"' ∷ b':' ∷ []

abbrev pub features_text : List ℕ
features_text =
    b',' ∷ b'"' ∷ b'f' ∷ b'e' ∷ b'a' ∷ b't' ∷ b'u' ∷ b'r' ∷ b'e' ∷ b's' ∷ b'"' ∷ b':' ∷ b'[' ∷ b'"'
    ∷ b'q' ∷ b'u' ∷ b'e' ∷ b'r' ∷ b'y' ∷ b'D' ∷ b'i' ∷ b'c' ∷ b't' ∷ b'i' ∷ b'o' ∷ b'n' ∷ b'a'
    ∷ b'r' ∷ b'y' ∷ b'"' ∷ b',' ∷ b'"' ∷ b't' ∷ b'e' ∷ b's' ∷ b't' ∷ b'E' ∷ b'v' ∷ b'm' ∷ b'R'
    ∷ b'p' ∷ b'c' ∷ b'"' ∷ b',' ∷ b'"' ∷ b'e' ∷ b'c' ∷ b'o' ∷ b'n' ∷ b'o' ∷ b'm' ∷ b'i' ∷ b'c'
    ∷ b's' ∷ b'"' ∷ b']' ∷ b'}' ∷ []

-- The counts are never negative.
unfoldable pub status_json : Counters → List ℕ
status_json c =
    running_text
    ++ (last_digits (ouc_get_auditor_count c)
        ++ (proposals_text ++ (last_digits (ouc_get_proposal_count c) ++ features_text)))

abbrev pub html_content_type : List ℕ
html_content_type = b't' ∷ b'e' ∷ b'x' ∷ b't' ∷ b'/' ∷ b'h' ∷ b't' ∷ b'm' ∷ b'l' ∷ []

unfoldable pub canister_query_http_request : List ℕ → Counters → List ℕ
canister_query_http_request msg c =
    if begins status_path (url_path (load_candid_args msg))
    then build_http_response 200 json_content_type (status_json c)
    else build_http_response 200 html_content_type dashboard_html
