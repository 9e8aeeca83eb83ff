-- ===== src/Dictionary/Outstanding.antt =====
-- Queries of dictionaries that are outstanding at the same time, in lib/ic0/canister_entry.c.
use idris2_ouc.Base.{
  ℕ, ◌+◌, ◌≤◌, ◌<◌, ◌≡◌, ◌≢◌, ◌∙◌, refl, sym, ap, List, [], ◌∷◌, ◌++◌, Option, none, some, ◌>>=◌,
  false, length, take, arith, All, length-append, ltb, ◌||◌,
}
use idris2_ouc.Base.Split.{take-append, drop-append}
use idris2_ouc.Leb128.{encode_leb128, parse_leb128, parse_leb128_loop}
use idris2_ouc.Leb128.RoundTrip.{parse-encode, length-encode_leb128, one-le-length-encode}
use idris2_ouc.Candid.{reply_candid_text, didl, skip_types}
use idris2_ouc.Candid.RoundTrip.{load_short}
use idris2_ouc.Handlers.{text_chars}
use idris2_ouc.Idris.{Machine}
use idris2_ouc.EvmRpc.{Answer, request_evm_rpc}
use idris2_ouc.Dictionary.{
  find_implementation, dict_query_reply_callback, implementation_json, Query, build_dict_query_json,
  parse_short_text, query_selector, canister_update_query_dictionary,
}

-- A text behind its length.
unfoldable pub text_arg : List ℕ → List ℕ → List ℕ
text_arg text rest = encode_leb128 10 (length text) ++ (text ++ rest)

-- The Candid message of two texts.
unfoldable pub two_texts : List ℕ → List ℕ → List ℕ
two_texts address selector = didl ++ (0 ∷ 2 ∷ 0x71 ∷ 0x71 ∷ text_arg address (text_arg selector []))

pub text_chars-All : (xs : List ℕ) → All (λ c. c ≢ 0) xs → text_chars xs ≡ xs
unfolding text_chars
text_chars-All [] h = refl
text_chars-All (x ∷ xs) h = ground (arith, text_chars-All xs h.1)

parse_short_text-text_arg :
    (max : ℕ) (text rest : List ℕ)
    → length text ≤ max
    → max < 65536
    → parse_short_text max (text_arg text rest) ≡ some (some (text, rest))
unfolding parse_short_text text_arg
parse_short_text-text_arg max text rest h bound =
    rw
      (
        parse-encode (length text) (text ++ rest) (omega arith),
        fits,
        take-append text rest,
        drop-append text rest,
      )
      refl
  where
    fits : (ltb max (length text) || ltb (length (text ++ rest)) (length text)) ≡ false
    fits = ground (arith, length-append text rest)

pub length-text_arg :
    (text rest : List ℕ)
    → (1 + length text + length rest ≤ length (text_arg text rest))
      × (length (text_arg text rest) ≤ 10 + length text + length rest)
unfolding text_arg
length-text_arg text rest =
    let n = encode_leb128 10 (length text) in
    let size = length-append n (text ++ rest) in
    (
      omega (arith, size, length-append text rest, one-le-length-encode 9 (length text)),
      omega (arith, size, length-append text rest, length-encode_leb128 10 (length text)),
    )

module _ {S : Type 0} (main : Machine S → Option (Machine S)) where
  selector_lem :
      (performed : ℕ) (selector : List ℕ) (q : Query) (m : Machine S)
      → length selector ≤ 11
      → All (λ c. c ≢ 0) selector
      → query_selector main performed (text_arg selector []) q m ≡ (do
        (answer, m') ←
            request_evm_rpc main (build_dict_query_json q.dict_addr selector) 1 2000 performed m
        some (answer, record q { selector = selector }, m'))
  unfolding query_selector
  selector_lem performed selector q m short plain =
      rw
        (
          query_selector,
          parse_short_text-text_arg 11 selector [] short (omega arith),
          text_chars-All selector plain,
        )
        refl

  -- A query with an address of at most 43 and a selector of at most 11 characters is stored as it is, in
  -- place of an earlier one, and its JSON request is encoded and sent. (Texts without NUL.)
  pub query_dictionary-request :
      (performed : ℕ) (address selector : List ℕ) (q : Query) (m : Machine S)
      → length address ≤ 43
      → length selector ≤ 11
      → All (λ c. c ≢ 0) address
      → All (λ c. c ≢ 0) selector
      → canister_update_query_dictionary main performed (two_texts address selector) q m ≡ (do
        (answer, m') ←
            request_evm_rpc main (build_dict_query_json address selector) 1 2000 performed m
        some (answer, record { dict_addr = address; selector = selector }, m'))
  unfolding canister_update_query_dictionary two_texts skip_types parse_leb128 parse_leb128_loop
  query_dictionary-request performed address selector q m ha hs pa ps =
      let arg = two_texts address selector in
      let size1 = length-text_arg address (text_arg selector []) in
      let size2 = length-text_arg selector [] in
      let short : length arg ≤ 1024 = omega (arith, size1.1, size2.1, ha, hs) in
      let long : ltb (length arg) 10 ≡ false = ground (arith, size1.0, size2.0) in
      let codes : ltb (length (0x71 ∷ 0x71 ∷ text_arg address (text_arg selector []))) 2 ≡ false =
        ground arith in
      rw
        (
          canister_update_query_dictionary,
          load_short arg short,
          long,
          codes,
          parse_short_text-text_arg 43 address (text_arg selector []) ha (omega arith),
          text_chars-All address pa,
        )
        (selector_lem performed selector (record q { dict_addr = address }) m hs ps)

  stored_lem :
      (asked : Option (Answer × Machine S)) (q q' : Query) (answer : Answer) (m' : Machine S)
      → ◌>>=◌ {B = Answer × Query × Machine S} asked (λ r. some (r.0, q, r.1))
        ≡ some (answer, q', m')
      → q' ≡ q
  stored_lem none q q' answer m' e = cc
  stored_lem (some (a, m)) q q' answer m' e = sym (ap stored e)
    where
      stored : Option (Answer × Query × Machine S) → Query
      stored none = q
      stored (some (a, found, m)) = found

  -- Two queries are outstanding: the answer to each reply that comes then names the address and the
  -- selector of the second one, also where it is the reply to the first. (The handler accepted both.
  -- Texts within the bounds and without NUL, and a reply with an implementation in it.)
  pub query-overtaken :
      (performed1 performed2 : ℕ) (address1 selector1 address2 selector2 : List ℕ) (q q1 q2 : Query)
      (m m1 m2 : Machine S) (answer1 answer2 : Answer) (msg implementation : List ℕ)
      → length address2 ≤ 43
      → length selector2 ≤ 11
      → All (λ c. c ≢ 0) address2
      → All (λ c. c ≢ 0) selector2
      → canister_update_query_dictionary main performed1 (two_texts address1 selector1) q m
        ≡ some (answer1, q1, m1)
      → canister_update_query_dictionary main performed2 (two_texts address2 selector2) q1 m1
        ≡ some (answer2, q2, m2)
      → find_implementation (take 4096 msg) ≡ some implementation
      → dict_query_reply_callback msg q2
        ≡ reply_candid_text (
            implementation_json implementation
              (record { dict_addr = address2; selector = selector2 }))
  unfolding dict_query_reply_callback
  query-overtaken performed1 performed2 address1 selector1 address2 selector2 q q1 q2 m m1 m2
        answer1 answer2 msg implementation ha hs pa ps e1 e2 found =
      let stored =
        stored_lem
          (request_evm_rpc main (build_dict_query_json address2 selector2) 1 2000 performed2 m1)
          (record { dict_addr = address2; selector = selector2 }) q2 answer2 m2
          (sym (query_dictionary-request performed2 address2 selector2 q1 m1 ha hs pa ps) ∙ e2) in
      rw (dict_query_reply_callback, found)
        (ap (λ s. reply_candid_text (implementation_json implementation s)) stored)
