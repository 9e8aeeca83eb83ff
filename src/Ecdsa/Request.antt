-- ===== src/Ecdsa/Request.antt =====
-- The request that lib/ic0/threshold_ecdsa.c sends: it fits the buffer of 512 bytes, and its values
-- can be read back.
use idris2_ouc.Base.{
  ℕ, zero, suc, ◌+◌, ◌*◌, ◌/◌, ◌≤◌, ◌<◌, ◌≡◌, refl, sym, List, [], ◌∷◌, ◌++◌, length, take, drop,
  Option, some, ◌>>=◌, length-append, length-take, length-drop, append_assoc, arith,
}
use idris2_ouc.Base.Split.{drop-append}
use idris2_ouc.Candid.Reader.{read_bytes, read_bytes-encode, read_bytes-encode_end}
use idris2_ouc.Leb128.{encode_leb128, encode_leb128_signed, shr7, parse_leb128}
use idris2_ouc.Leb128.RoundTrip.{parse-encode}
use idris2_ouc.Ecdsa.{Ecdsa, request_types, segments_loop, encode_sign_request, type_code}
use idris2_ouc.Ecdsa.Histories.{IsSound}

-- The segments of a path, `n` of them from the `i`-th on.
unfoldable pub segments : ℕ → ℕ → List ℕ → List (List ℕ)
segments zero i path = []
segments (suc n) i path = take 4 (drop (i * 4) path) ∷ segments n (i + 1) path

unfoldable pub read_segments : ℕ → List ℕ → Option (List (List ℕ) × List ℕ)
read_segments zero bs = some ([], bs)
read_segments (suc n) bs = do
  (segment, rest) ← read_bytes bs
  (others, rest') ← read_segments n rest
  some (segment ∷ others, rest')

-- A reader of the values: the path, the index of the curve, the name of the key and the hash.
unfoldable pub read_values : List ℕ → Option (List (List ℕ) × (ℕ × (List ℕ × List ℕ)))
read_values bs = do
  (n, bs1) ← parse_leb128 bs
  (path, bs2) ← read_segments n bs1
  (curve, bs3) ← parse_leb128 bs2
  (name, bs4) ← read_bytes bs3
  (hash, bs5) ← read_bytes bs4
  some (path, (curve, (name, hash)))

length-segment :
    (i : ℕ) (path : List ℕ) → i * 4 + 4 ≤ length path → 4 ≡ length (take 4 (drop (i * 4) path))
length-segment i path h = omega (arith, length-take 4 (drop (i * 4) path), length-drop (i * 4) path)

read_segments-loop :
    (n i : ℕ) (path rest : List ℕ)
    → (i + n) * 4 ≤ length path
    → read_segments n (segments_loop n i path ++ rest) ≡ some (segments n i path, rest)
unfolding read_segments segments_loop segments
read_segments-loop zero i path rest h = refl
read_segments-loop (suc n) i path rest h =
    let segment = take 4 (drop (i * 4) path) in
    rw
      (
        append_assoc (encode_leb128 10 4) (segment ++ segments_loop n (i + 1) path) rest,
        append_assoc segment (segments_loop n (i + 1) path) rest,
        read_bytes-encode segment (segments_loop n (i + 1) path ++ rest) 4
            (length-segment i path (omega arith)) (omega arith),
        read_segments-loop n (i + 1) path rest (omega arith),
      )
      refl

length-request_types : length request_types ≡ 51
unfolding request_types type_code encode_leb128 encode_leb128_signed shr7
length-request_types = refl

-- Behind the type table the request has the path as whole segments, the index 0 of the curve, the
-- name of the key and the hash: they are read back, and nothing else stands between them.
pub read_values-encode :
    (s : Ecdsa)
    → IsSound s
    → read_values (drop (length request_types) (encode_sign_request s))
      ≡ some (
        segments (s.derivation_path_len / 4) 0 s.derivation_path,
        (0, (take s.key_name_len s.key_name, s.message_hash)),
      )
unfolding read_values encode_sign_request
read_values-encode s h =
    let path_len = s.derivation_path_len / 4 in
    let name = take s.key_name_len s.key_name in
    let end = encode_leb128 10 32 ++ s.message_hash in
    let named = encode_leb128 10 s.key_name_len ++ (name ++ end) in
    rw
      (
        drop-append request_types (
            encode_leb128 10 path_len
            ++ (segments_loop path_len 0 s.derivation_path ++ (encode_leb128 10 0 ++ named))),
        parse-encode path_len
            (segments_loop path_len 0 s.derivation_path ++ (encode_leb128 10 0 ++ named))
            (omega (arith, h.path_short)),
        read_segments-loop path_len 0 s.derivation_path (encode_leb128 10 0 ++ named)
            (omega (arith, h.path_short, h.path_size)),
        parse-encode 0 named (omega arith),
        read_bytes-encode name end s.key_name_len name_len (omega (arith, h.name_short)),
        read_bytes-encode_end s.message_hash 32 (sym h.hash_size) (omega arith),
      )
      refl
  where
    name_len : s.key_name_len ≡ length (take s.key_name_len s.key_name)
    name_len = omega (arith, h.name_short, h.name_size, length-take s.key_name_len s.key_name)

length-segments_loop :
    (n i : ℕ) (path : List ℕ) → (i + n) * 4 ≤ length path → length (segments_loop n i path) ≡ 5 * n
unfolding segments_loop encode_leb128
length-segments_loop zero i path h = refl
length-segments_loop (suc n) i path h = omega (
  arith,
  length-segments_loop n (i + 1) path (omega arith),
  length-append (take 4 (drop (i * 4) path)) (segments_loop n (i + 1) path),
  length-segment i path (omega arith),
)

length-small : (n : ℕ) → n < 128 → length (encode_leb128 10 n) ≡ 1
unfolding encode_leb128
length-small n h = ground arith

-- The request never leaves the buffer of 512 bytes: with a path of `n` segments and a name of `l`
-- bytes it has 87 + 5 n + l bytes.
pub request-bounds :
    (s : Ecdsa)
    → IsSound s
    → (length (encode_sign_request s) ≡ 87 + 5 * (s.derivation_path_len / 4) + s.key_name_len)
      × (length (encode_sign_request s) ≤ 512)
request-bounds s h =
    let path_len = s.derivation_path_len / 4 in
    let name = take s.key_name_len s.key_name in
    let path = segments_loop path_len 0 s.derivation_path in
    let end = encode_leb128 10 32 ++ s.message_hash in
    let named = encode_leb128 10 s.key_name_len ++ (name ++ end) in
    let total : length (encode_sign_request s) ≡ 87 + 5 * path_len + s.key_name_len =
      unfold encode_sign_request in
      omega (
        arith,
        length-append request_types
            (encode_leb128 10 path_len ++ (path ++ (encode_leb128 10 0 ++ named))),
        length-request_types,
        length-append (encode_leb128 10 path_len) (path ++ (encode_leb128 10 0 ++ named)),
        length-small path_len (omega (arith, h.path_short)),
        length-append path (encode_leb128 10 0 ++ named),
        length-segments_loop path_len 0 s.derivation_path
            (omega (arith, h.path_short, h.path_size)),
        length-append (encode_leb128 10 0) named,
        length-small 0 (omega arith),
        length-append (encode_leb128 10 s.key_name_len) (name ++ end),
        length-small s.key_name_len (omega (arith, h.name_short)),
        length-append name end,
        length-take s.key_name_len s.key_name,
        h.name_size,
        h.name_short,
        length-append (encode_leb128 10 32) s.message_hash,
        length-small 32 (omega arith),
        h.hash_size,
      ) in
    (total, omega (arith, total, h.path_short, h.name_short))
