-- ===== src/FetchLogs/Reply.antt =====
-- What lib/ic0/canister_entry.c does with a reply that holds logs.
use idris2_ouc.Base.{
  ℕ, suc, ◌≤◌, ◌<◌, ◌≡◌, ◌≢◌, ◌∙◌, refl, sym, ap, List, [], ◌∷◌, ◌++◌, Option, some, ◌>>=◌, true,
  length, drop, map, All, arith, append_assoc,
}
use idris2_ouc.Base.Split.{drop-append, take_all}
use idris2_ouc.Candid.{reply_candid_text}
use idris2_ouc.EvmLogs.{find_after, result_field, parse_and_store_logs}
use idris2_ouc.EvmLogs.Fields.{misses, skip_lem, found_lem}
use idris2_ouc.EvmLogs.Objects.{IsFlat, object, array}
use idris2_ouc.EvmLogs.Format.{Log, IsLog, log_body}
use idris2_ouc.EvmLogs.Stored.{event_of, reply_start, logs-events, bodies-IsFlat}
use idris2_ouc.Idris.{Machine}
use idris2_ouc.EvmRpc.{json_start}
use idris2_ouc.FetchLogs.{
  Fetch, store_events, closed, json_of, fetched_events, fetched_text, fetch_logs_reply_callback,
}

closed-flat :
    (xs rest js : List ℕ) (n : ℕ)
    → IsFlat xs
    → 0 < n
    → closed rest n ≡ some js
    → closed (xs ++ rest) n ≡ some (xs ++ js)
unfolding closed
closed-flat [] rest js n h pos e = e
closed-flat (x ∷ xs) rest js n h pos e = ground (arith, closed-flat xs rest js n h.1 pos e)

step_lem :
    (c : ℕ) (cs js : List ℕ)
    → closed cs 1 ≡ some js
    → c ≢ b'{'
    → c ≢ b'}'
    → closed (c ∷ cs) 1 ≡ some (c ∷ js)
unfolding closed
step_lem c cs js e h k = ground (arith, e)

closed-object :
    (body rest js : List ℕ)
    → IsFlat body
    → closed rest 1 ≡ some js
    → closed (object body ++ rest) 1 ≡ some (object body ++ js)
unfolding object closed
closed-object body rest js h e =
    let inner : closed (body ++ (b'}' ∷ rest)) 2 ≡ some (body ++ (b'}' ∷ js)) =
      closed-flat body (b'}' ∷ rest) (b'}' ∷ js) 2 h (omega arith) (ground (arith, e)) in
    ap (λ r. closed (b'{' ∷ r) 1) (append_assoc body (b'}' ∷ []) rest)
    ∙ opened (body ++ (b'}' ∷ rest)) (body ++ (b'}' ∷ js)) inner
    ∙ ap (λ r. some (b'{' ∷ r)) (sym (append_assoc body (b'}' ∷ []) js))
  where
    opened : (bs ks : List ℕ) → closed bs 2 ≡ some ks → closed (b'{' ∷ bs) 1 ≡ some (b'{' ∷ ks)
    opened bs ks i = ground (arith, i)

end_lem : (post : List ℕ) → closed (b']' ∷ b'}' ∷ post) 1 ≡ some (b']' ∷ b'}' ∷ [])
unfolding closed
end_lem post = ground arith

-- The array of logs lies in the object that its reply is.
closed-array :
    (bodies : List (List ℕ)) (post : List ℕ)
    → All IsFlat bodies
    → closed (array bodies (b'}' ∷ post)) 1 ≡ some (array bodies (b'}' ∷ []))
unfolding array
closed-array [] post h = end_lem post
closed-array (body ∷ []) post h =
    closed-object body (b']' ∷ b'}' ∷ post) (b']' ∷ b'}' ∷ []) h.0 (end_lem post)
closed-array (body ∷ body' ∷ bodies) post h =
    closed-object body (b',' ∷ array (body' ∷ bodies) (b'}' ∷ post))
      (b',' ∷ array (body' ∷ bodies) (b'}' ∷ [])) h.0
      (step_lem b',' (array (body' ∷ bodies) (b'}' ∷ post)) (array (body' ∷ bodies) (b'}' ∷ []))
        (closed-array (body' ∷ bodies) post h.1) (omega arith) (omega arith))

-- The JSON of a reply to eth_getLogs.
unfoldable pub logs_reply : List Log → List ℕ → List ℕ
logs_reply ls post = reply_start ++ (result_field ++ array (map log_body ls) (b'}' ∷ post))

opened_lem : (bs js : List ℕ) → closed bs 1 ≡ some js → json_of (b'{' ∷ bs) ≡ b'{' ∷ js
unfolding json_of closed
opened_lem bs js e = rw e refl

json-logs_reply :
    (ls : List Log) (post : List ℕ) → All IsLog ls → json_of (logs_reply ls post) ≡ logs_reply ls []
unfolding logs_reply
json-logs_reply ls post h =
    let bodies = map log_body ls in
    opened_lem (drop 1 reply_start ++ (result_field ++ array bodies (b'}' ∷ post)))
      (drop 1 reply_start ++ (result_field ++ array bodies (b'}' ∷ [])))
      (closed-flat (drop 1 reply_start ++ result_field) (array bodies (b'}' ∷ post))
        (array bodies (b'}' ∷ [])) 1 (ground arith) (omega arith)
        (closed-array bodies post (bodies-IsFlat ls h)))

length-logs_reply : (ls : List Log) (post : List ℕ) → 10 < length (logs_reply ls post)
unfolding logs_reply
length-logs_reply ls post = ground arith

length-map_event : (ls : List Log) → length (map event_of ls) ≡ length ls
length-map_event [] = refl
length-map_event (l ∷ ls) = ap suc (length-map_event ls)

found_reply :
    (ls : List Log) (post : List ℕ)
    → find_after 10 json_start (logs_reply ls post) ≡ some (drop 2 (logs_reply ls post))
unfolding logs_reply
found_reply ls post =
    found_lem 10 b'{' (b'"' ∷ []) (drop 2 (logs_reply ls post)) (length-logs_reply ls post)

events_lem :
    (buf rest : List ℕ)
    → find_after 10 json_start (drop 10 buf) ≡ some rest
    → fetched_events buf ≡ parse_and_store_logs (json_of (json_start ++ rest))
unfolding fetched_events
events_lem buf rest e = rw (fetched_events, e) refl

fetched_events-logs :
    (first pre : List ℕ) (ls : List Log) (post : List ℕ)
    → length first ≡ 10
    → misses json_start pre (logs_reply ls post) ≡ true
    → All IsLog ls
    → fetched_events (first ++ (pre ++ logs_reply ls post)) ≡ map event_of ls
fetched_events-logs first pre ls post h10 m h =
    let msg = first ++ (pre ++ logs_reply ls post) in
    let rest = drop 2 (logs_reply ls post) in
    let e =
      ap (λ n. find_after 10 json_start (drop n msg)) (sym h10)
      ∙ ap (find_after 10 json_start) (drop-append first (pre ++ logs_reply ls post))
      ∙ skip_lem 10 json_start pre (logs_reply ls post) m
      ∙ found_reply ls post in
    events_lem msg rest e
    ∙ ap (λ j. parse_and_store_logs (json_of j)) whole
    ∙ ap parse_and_store_logs (json-logs_reply ls post h)
    ∙ same
  where
    whole : json_start ++ drop 2 (logs_reply ls post) ≡ logs_reply ls post
    whole = unfold logs_reply in refl

    same : parse_and_store_logs (logs_reply ls []) ≡ map event_of ls
    same = unfold logs_reply in logs-events ls (b'}' ∷ []) h

-- The logs of a reply to eth_getLogs are stored by calls of the Idris2 code, each once and in their
-- order, with their block cut to 32 bits and the type that their first topic tells, and the answer
-- names their number and the blocks that were asked for. (The addresses, topics and data of the logs
-- have no quotation mark, no brace and no letter l or o, a block has at most 64 bits, and no
-- brace follows it in its log; the JSON is the first object behind the tenth byte, and the
-- reply has at most 8192 bytes.)
pub fetch_logs_reply-logs :
    {S : Type 0} (main : Machine S → Option (Machine S)) (first pre : List ℕ) (ls : List Log)
    (post : List ℕ) (f : Fetch) (m : Machine S)
    → length first ≡ 10
    → misses json_start pre (logs_reply ls post) ≡ true
    → All IsLog ls
    → length (first ++ (pre ++ logs_reply ls post)) ≤ 8192
    → fetch_logs_reply_callback main (first ++ (pre ++ logs_reply ls post)) f m ≡ (do
      m' ← store_events main (map event_of ls) m
      some (reply_candid_text (fetched_text f (length ls)), m'))
unfolding fetch_logs_reply_callback
fetch_logs_reply-logs main first pre ls post f m h10 miss h short =
    let msg = first ++ (pre ++ logs_reply ls post) in
    rw
      (
        fetch_logs_reply_callback,
        take_all 8192 msg short,
        fetched_events-logs first pre ls post h10 miss h,
        length-map_event ls,
      )
      refl
