-- ===== src/EvmLogs/Objects.antt =====
-- The loop over the array of logs in lib/ic0/canister_entry.c cuts it into its objects.
use idris2_ouc.Base.{
  ℕ, ◌-◌, ◌≡◌, ◌≢◌, ◌∙◌, refl, sym, ap, ap₂, List, [], ◌∷◌, ◌++◌, some, none, length, length-append,
  take, All, arith, append_assoc, map,
}
use idris2_ouc.Base.Split.{take-append}
use idris2_ouc.EvmLogs.{objects_loop, brace_step, with_object}

-- Bytes without braces.
abbrev pub IsFlat : List ℕ → Type 0
IsFlat = All (λ c. (c ≢ b'{') × (c ≢ b'}'))

-- An object, the objects of an array with commas between them, and its end.
unfoldable pub object : List ℕ → List ℕ
object body = b'{' ∷ body ++ (b'}' ∷ [])

unfoldable pub array : List (List ℕ) → List ℕ → List ℕ
array [] post = b']' ∷ post
array (body ∷ []) post = object body ++ (b']' ∷ post)
array (body ∷ bodies) post = object body ++ (b',' ∷ array bodies post)

body_lem :
    (body rest s : List ℕ)
    → IsFlat body
    → objects_loop (body ++ rest) 1 (some s) ≡ objects_loop rest 1 (some s)
unfolding objects_loop brace_step with_object
body_lem [] rest s h = refl
body_lem (c ∷ body) rest s h = ground (arith, body_lem body rest s h.1)

whole_object :
    (body rest : List ℕ)
    → let s = b'{' ∷ body ++ (b'}' ∷ rest) in take (length s - length rest) s ≡ object body
unfolding object
whole_object body rest =
    ap₂ take {x = length (b'{' ∷ body ++ (b'}' ∷ rest)) - length rest}
      {y = length (b'{' ∷ body ++ (b'}' ∷ []))}
      (omega (arith, length-append body (b'}' ∷ rest), length-append body (b'}' ∷ [])))
      (ap (λ r. b'{' ∷ r) (sym (append_assoc body (b'}' ∷ []) rest)))
    ∙ take-append (b'{' ∷ body ++ (b'}' ∷ [])) rest

object_lem :
    (body rest : List ℕ)
    → IsFlat body
    → objects_loop (b'{' ∷ body ++ (b'}' ∷ rest)) 0 none ≡ object body ∷ objects_loop rest 0 none
unfolding objects_loop brace_step with_object
object_lem body rest h =
    body_lem body (b'}' ∷ rest) (b'{' ∷ body ++ (b'}' ∷ rest)) h
    ∙ ap (λ o. o ∷ objects_loop rest 0 none) (whole_object body rest)

object_first :
    (body rest : List ℕ)
    → IsFlat body
    → objects_loop (object body ++ rest) 0 none ≡ object body ∷ objects_loop rest 0 none
unfolding object
object_first body rest h =
    ap (λ r. objects_loop (b'{' ∷ r) 0 none) (append_assoc body (b'}' ∷ []) rest)
    ∙ object_lem body rest h

-- An array of objects without braces inside them is cut into these objects, all of them in their
-- order; what follows the array is not looked at.
pub objects-array :
    (bodies : List (List ℕ)) (post : List ℕ)
    → All IsFlat bodies
    → objects_loop (array bodies post) 0 none ≡ map object bodies
unfolding array
objects-array [] post h = unfold objects_loop in refl
objects-array (body ∷ []) post h =
    object_first body (b']' ∷ post) h.0 ∙ ap (λ os. object body ∷ os) (unfold objects_loop in refl)
objects-array (body ∷ body' ∷ bodies) post h =
    object_first body (b',' ∷ array (body' ∷ bodies) post) h.0
    ∙ ap (λ os. object body ∷ os) (comma ∙ objects-array (body' ∷ bodies) post h.1)
  where
    comma :
        objects_loop (b',' ∷ array (body' ∷ bodies) post) 0 none
        ≡ objects_loop (array (body' ∷ bodies) post) 0 none
    comma = unfold objects_loop brace_step with_object in refl
