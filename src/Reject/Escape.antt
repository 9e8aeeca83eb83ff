-- ===== src/Reject/Escape.antt =====
-- The messages of rejections stand in the responses of lib/ic0/canister_entry.c as JSON strings.
use idris2_ouc.Base.{
  ℕ, ◌+◌, ◌*◌, ◌≤◌, ◌≡◌, refl, List, [], ◌∷◌, ◌++◌, Option, none, some, ◌>>=◌, true, false, ◌&&◌,
  ltb, leb, ◌==◌, if◌then◌else◌, length, arith, append_assoc, length-append, Bool-cases, inl, inr,
}
use idris2_ouc.Reject.{escaped, escape_loop}

-- A reader of JSON strings, behind their first quotation mark: a backslash takes the next character as
-- it is, and a quotation mark ends the string.
unfoldable pub read_string : List ℕ → Option (List ℕ × List ℕ)
read_string [] = none
read_string (c ∷ []) = if c == b'"' then some ([], []) else none
read_string (c ∷ d ∷ cs) =
    let as_escape = (do (s, rest) ← read_string cs; some (d ∷ s, rest)) in
    let as_char = (do (s, rest) ← read_string (d ∷ cs); some (c ∷ s, rest)) in
    if c == b'"' then some ([], d ∷ cs) else if c == 92 then as_escape else as_char

-- The printable characters of a message.
unfoldable pub printable : List ℕ → List ℕ
printable [] = []
printable (c ∷ cs) = let more = printable cs in if leb 32 c && ltb c 127 then c ∷ more else more

-- A character that is escaped, one that stands as it is, and one that is left out.
module _ (b : ℕ) (bs s post : List ℕ) (e : read_string (b ∷ bs) ≡ some (s, post)) where
  quote_lem : read_string (escaped b'"' ++ (b ∷ bs)) ≡ some (b'"' ∷ s, post)
  unfolding read_string escaped
  quote_lem = rw e refl

  backslash_lem : read_string (escaped 92 ++ (b ∷ bs)) ≡ some (92 ∷ s, post)
  unfolding read_string escaped
  backslash_lem = rw e refl

  plain_lem :
      (c : ℕ)
      → (c == b'"') ≡ false
      → (c == 92) ≡ false
      → (leb 32 c && ltb c 127) ≡ true
      → read_string (escaped c ++ (b ∷ bs)) ≡ some (c ∷ s, post)
  unfolding read_string escaped
  plain_lem c q1 q2 p = rw (q1, q2, p, q1, q2, e) refl

  left_lem :
      (c : ℕ)
      → (c == b'"') ≡ false
      → (c == 92) ≡ false
      → (leb 32 c && ltb c 127) ≡ false
      → read_string (escaped c ++ (b ∷ bs)) ≡ some (s, post)
  unfolding escaped
  left_lem c q1 q2 p = rw (q1, q2, p) e

read_escaped :
    (c : ℕ) (bs s post : List ℕ)
    → read_string bs ≡ some (s, post)
    → read_string (escaped c ++ bs) ≡ some ((if leb 32 c && ltb c 127 then c ∷ s else s), post)
unfolding read_string
read_escaped c [] s post e = cc
read_escaped c (b ∷ bs) s post e = elim (Bool-cases (c == b'"')) [
  | inl q ↦ rw (equal c b'"' q) (quote_lem b bs s post e)
  | inr q1 ↦ elim (Bool-cases (c == 92)) [
    | inl q ↦ rw (equal c 92 q) (backslash_lem b bs s post e)
    | inr q2 ↦ elim (Bool-cases (leb 32 c && ltb c 127)) [
      | inl p ↦ rw p (plain_lem b bs s post e c q1 q2 p)
      | inr p ↦ rw p (left_lem b bs s post e c q1 q2 p)
    ]
  ]
]
  where
    equal : (n k : ℕ) → (n == k) ≡ true → n ≡ k
    equal n k h = ground arith

end_of_string : (post : List ℕ) → read_string (b'"' ∷ post) ≡ some ([], post)
unfolding read_string
end_of_string [] = refl
end_of_string (p ∷ post) = refl

length-escaped : (c : ℕ) → length (escaped c) ≤ 2
unfolding escaped
length-escaped c = ground arith

-- The message between the quotation marks of a response is a JSON string: a reader gets the printable
-- characters of the message back, of all of it where the bound leaves room for two
-- characters each, and goes on right behind the closing mark.
pub read_string-escape_loop :
    (bound len : ℕ) (msg post : List ℕ)
    → len + 2 * length msg ≤ bound
    → read_string (escape_loop bound len msg ++ (b'"' ∷ post)) ≡ some (printable msg, post)
unfolding escape_loop printable
read_string-escape_loop bound len [] post h = end_of_string post
read_string-escape_loop bound len (c ∷ cs) post h =
    let len' = len + length (escaped c) in
    rw (room, append_assoc (escaped c) (escape_loop bound len' cs) (b'"' ∷ post))
      (read_escaped c (escape_loop bound len' cs ++ (b'"' ∷ post)) (printable cs) post
        (read_string-escape_loop bound len' cs post (omega (arith, length-escaped c))))
  where
    room : ltb len bound ≡ true
    room = ground arith

-- What the loop adds ends at most one character behind the bound.
pub length-escape_loop :
    (bound len : ℕ) (msg : List ℕ)
    → len ≤ bound + 1
    → len + length (escape_loop bound len msg) ≤ bound + 1
unfolding escape_loop
length-escape_loop bound len [] h = omega arith
length-escape_loop bound len (c ∷ cs) h = ground (
  arith,
  length-append (escaped c) (escape_loop bound (len + length (escaped c)) cs),
  length-escaped c,
  length-escape_loop bound (len + length (escaped c)) cs,
)
