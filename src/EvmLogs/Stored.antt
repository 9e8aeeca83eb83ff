-- ===== src/EvmLogs/Stored.antt =====
-- What lib/ic0/canister_entry.c stores of the logs in a reply to eth_getLogs.
use idris2_ouc.Base.{
  ℕ, ◌<◌, ◌≡◌, ◌∙◌, refl, sym, ap, ap₂, List, [], ◌∷◌, ◌++◌, some, none, length, Bool, true, map,
  All, arith, drop, not, ◌&&◌, ◌==◌,
}
use idris2_ouc.Word.{u32}
use idris2_ouc.EvmLogs.{
  address_field, topics_field, block_field, result_field, find_after, begins, until_quote,
  event_type_of, parse_and_store_log, hex_text, parse_hex_uint64, store_all, parse_and_store_logs,
  objects_loop,
}
use idris2_ouc.EvmLogs.Hex.{parse-hex_text}
use idris2_ouc.EvmLogs.Fields.{skip_lem, found_lem, misses, until_quote-append, until_quote-All}
use idris2_ouc.EvmLogs.Plain.{hex_text-IsPlain, no_quote, IsPlain-IsFlat}
use idris2_ouc.EvmLogs.Objects.{IsFlat, object, array, objects-array}
use idris2_ouc.EvmLogs.Format.{
  Log, IsLog, to_data, separator, at_block, at_topics, at_address, log_body, log_text,
  object-log_body, find_address, find_topics, find_block,
}

-- The event that is stored of it: the block cut to 32 bits, and the type that the topic tells.
unfoldable pub event_of : Log → ℕ × ℕ
event_of l = (u32 l.block, event_type_of (some l.topic))

fields_lem :
    (log address block topics : List ℕ)
    → find_after 12 address_field log ≡ some address
    → find_after 15 block_field log ≡ some block
    → find_after 12 topics_field log ≡ some topics
    → parse_and_store_log log
      ≡ some (u32 (parse_hex_uint64 (until_quote block)), event_type_of (some topics))
unfolding parse_and_store_log
fields_lem log address block topics ea eb et = rw (parse_and_store_log, ea, eb, et) refl

type_lem :
    (xs ys : List ℕ)
    → until_quote xs ≡ until_quote ys
    → event_type_of (some xs) ≡ event_type_of (some ys)
unfolding event_type_of
type_lem xs ys e = rw e refl

-- Of a log in this format the block, cut to 32 bits, and the type that its first topic tells are
-- stored.
pub log-event : (l : Log) → IsLog l → parse_and_store_log (object (log_body l)) ≡ some (event_of l)
unfolding event_of
log-event l h =
    let end = l.others ++ (b'}' ∷ []) in
    let rest = drop 1 to_data ++ (l.payload ++ (separator ++ (block_field ++ at_block l end))) in
    ap parse_and_store_log (object-log_body l)
    ∙ fields_lem (log_text l end) (at_address l end) (at_block l end) (at_topics l end)
        (find_address l end h) (find_block l end h) (find_topics l end h)
    ∙ ap₂ (λ b t. some (u32 b, t))
        (ap parse_hex_uint64 (
            until_quote-append (b'0' ∷ b'x' ∷ hex_text l.block) end (
              ground arith,
              (ground arith, no_quote (hex_text l.block) (hex_text-IsPlain l.block)),
            ))
          ∙ parse-hex_text l.block h.block_fits)
        (type_lem (at_topics l end) l.topic (
          until_quote-append l.topic rest (no_quote l.topic h.topic_plain)
          ∙ sym (until_quote-All l.topic (no_quote l.topic h.topic_plain))))

-- A body has no brace.
unfoldable all_flat : List ℕ → Bool
all_flat [] = true
all_flat (c ∷ cs) = not (c == b'{') && (not (c == b'}') && all_flat cs)

IsFlat-append : (xs ys : List ℕ) → IsFlat xs → IsFlat ys → IsFlat (xs ++ ys)
IsFlat-append [] ys h g = g
IsFlat-append (x ∷ xs) ys h g = (h.0, IsFlat-append xs ys h.1 g)

Flat_literal : (bs : List ℕ) → all_flat bs ≡ true → IsFlat bs
unfolding all_flat
Flat_literal [] h = tt
Flat_literal (x ∷ xs) h = (ground arith, Flat_literal xs (ground arith))

log_body-IsFlat : (l : Log) → IsLog l → IsFlat (log_body l)
unfolding log_body all_flat
log_body-IsFlat l h =
    IsFlat-append (b'"' ∷ address_field) (at_address l l.others)
      (Flat_literal (b'"' ∷ address_field) refl)
      (IsFlat-append l.address (separator ++ (topics_field ++ at_topics l l.others))
        (IsPlain-IsFlat l.address h.address_plain)
        (IsFlat-append (separator ++ topics_field) (at_topics l l.others)
          (Flat_literal (separator ++ topics_field) refl)
          (IsFlat-append l.topic
            (to_data ++ (l.payload ++ (separator ++ (block_field ++ at_block l l.others))))
            (IsPlain-IsFlat l.topic h.topic_plain)
            (IsFlat-append to_data
              (l.payload ++ (separator ++ (block_field ++ at_block l l.others)))
              (Flat_literal to_data refl)
              (IsFlat-append l.payload (separator ++ (block_field ++ at_block l l.others))
                (IsPlain-IsFlat l.payload h.payload_plain)
                (IsFlat-append (separator ++ block_field ++ (b'0' ∷ b'x' ∷ []))
                  (hex_text l.block ++ (b'"' ∷ l.others))
                  (Flat_literal (separator ++ block_field ++ (b'0' ∷ b'x' ∷ [])) refl)
                  (IsFlat-append (hex_text l.block) (b'"' ∷ l.others)
                    (IsPlain-IsFlat (hex_text l.block) (hex_text-IsPlain l.block))
                    (ground arith, h.others_flat))))))))

store_all-events :
    (ls : List Log) → All IsLog ls → store_all (map object (map log_body ls)) ≡ map event_of ls
unfolding store_all
store_all-events [] h = refl
store_all-events (l ∷ ls) h =
    rw (store_all, log-event l h.0) (ap (λ es. event_of l ∷ es) (store_all-events ls h.1))

pub bodies-IsFlat : (ls : List Log) → All IsLog ls → All IsFlat (map log_body ls)
bodies-IsFlat [] h = tt
bodies-IsFlat (l ∷ ls) h = (log_body-IsFlat l h.0, bodies-IsFlat ls h.1)

result_lem :
    (json bs : List ℕ)
    → find_after 10 result_field json ≡ some bs
    → parse_and_store_logs json ≡ store_all (objects_loop bs 0 none)
unfolding parse_and_store_logs
result_lem json bs e = rw (parse_and_store_logs, e) refl

array_long : (ls : List (List ℕ)) (post : List ℕ) → 0 < length (array ls post)
unfolding array object
array_long [] post = ground arith
array_long (b ∷ []) post = ground arith
array_long (b ∷ c ∷ ls) post = ground arith

-- The JSON of a reply in front of its array: {"jsonrpc":"2.0","id":1, with the field of the result.
abbrev pub reply_start : List ℕ
reply_start =
    b'{' ∷ b'"' ∷ b'j' ∷ b's' ∷ b'o' ∷ b'n' ∷ b'r' ∷ b'p' ∷ b'c' ∷ b'"' ∷ b':' ∷ b'"' ∷ b'2' ∷ b'.'
    ∷ b'0' ∷ b'"' ∷ b',' ∷ b'"' ∷ b'i' ∷ b'd' ∷ b'"' ∷ b':' ∷ b'1' ∷ b',' ∷ []

-- Of a reply whose array holds logs in the format of the comment, every log is stored once, in its
-- order, and nothing else is: with its block cut to 32 bits and the type that its first topic tells.
-- The addresses, topics and data have no quotation mark, no brace and no letter l or o, a block has
-- at most 64 bits, and there is no brace in what follows it in its log.
pub logs-events :
    (ls : List Log) (post : List ℕ)
    → All IsLog ls
    → parse_and_store_logs (reply_start ++ (result_field ++ array (map log_body ls) post))
      ≡ map event_of ls
unfolding misses begins
logs-events ls post h =
    result_lem (reply_start ++ (result_field ++ array (map log_body ls) post))
      (array (map log_body ls) post)
      (skip_lem 10 result_field reply_start (result_field ++ array (map log_body ls) post) refl
        ∙ found_lem 10 b'"' (b'r' ∷ b'e' ∷ b's' ∷ b'u' ∷ b'l' ∷ b't' ∷ b'"' ∷ b':' ∷ b'[' ∷ [])
            (array (map log_body ls) post) (omega (arith, array_long (map log_body ls) post)))
    ∙ ap store_all (objects-array (map log_body ls) post (bodies-IsFlat ls h))
    ∙ store_all-events ls h
