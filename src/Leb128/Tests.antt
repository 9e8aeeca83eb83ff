-- ===== src/Leb128/Tests.antt =====
-- The round trip at a concrete number.
use idris2_ouc.Base.{◌≡◌, ◌++◌, [], ◌∷◌, some, arith}
use idris2_ouc.Base.{refl}
use idris2_ouc.Leb128.{encode_leb128, parse_leb128, encode_leb128_signed, shr7}
use idris2_ouc.Leb128.Signed.{signed_value, value-encode_signed}
use idris2_ouc.Leb128.RoundTrip.{parse-encode}

parse-encode_example : parse_leb128 (encode_leb128 10 624485 ++ (7 ∷ [])) ≡ some (624485, 7 ∷ [])
parse-encode_example = parse-encode 624485 (7 ∷ []) (omega arith)

value-encode_signed_example :
    signed_value (encode_leb128_signed 10 18446744073709551597) ≡ 18446744073709551597
value-encode_signed_example = value-encode_signed 18446744073709551597 (omega arith)

-- -19.
encode_minus_19 : encode_leb128_signed 10 18446744073709551597 ≡ 0x6D ∷ []
unfolding encode_leb128_signed shr7
encode_minus_19 = refl
