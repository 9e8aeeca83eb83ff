-- ===== src/Ecdsa/Tests.antt =====
-- The theorems on threshold signatures at concrete calls.
use idris2_ouc.Base.{◌≡◌, refl, List, [], ◌∷◌, ◌/◌, some, length, take, drop, ◌++◌}
use idris2_ouc.Ecdsa.{
  Ecdsa, initial, success, encode_sign_request, request_types, ouc_ecdsa_get_status,
  ouc_ecdsa_get_signature_len, ouc_ecdsa_get_signature_byte,
}
use idris2_ouc.Ecdsa.Histories.{
  Event, set_key, set_derivation_segment, sign, reply, run, IsSound, run-initial-IsSound,
  run-no_signature, status-last, status_word, decides,
}
use idris2_ouc.Ecdsa.Request.{segments, read_values, read_values-encode}

-- A key is chosen, two segments are set, and a signature is asked for and answered.
abbrev calls : List Event
calls = set_key 1 ∷ set_derivation_segment 0 44 ∷ set_derivation_segment 1 60 ∷ sign 0 ∷ reply ∷ []

abbrev answered : Ecdsa
answered = run calls initial

run-initial-IsSound_example : IsSound (run calls initial)
run-initial-IsSound_example = run-initial-IsSound calls

run-no_signature_example :
    (ouc_ecdsa_get_signature_len (run calls initial) ≡ 0)
    × (ouc_ecdsa_get_signature_byte 3 (run calls initial) ≡ 0)
run-no_signature_example = run-no_signature calls 3

status-last_example :
    ouc_ecdsa_get_status (run (sign 0 ∷ [] ++ reply ∷ set_key 2 ∷ []) initial) ≡ status_word success
unfolding decides
status-last_example =
    status-last (sign 0 ∷ []) reply (set_key 2 ∷ []) success initial refl (refl, tt)

read_values-encode_example :
    read_values (drop (length request_types) (encode_sign_request answered))
    ≡ some (
      segments (answered.derivation_path_len / 4) 0 answered.derivation_path,
      (0, (take answered.key_name_len answered.key_name, answered.message_hash)),
    )
read_values-encode_example = read_values-encode answered (run-initial-IsSound calls)
