-- ===== src/Ecdsa.antt =====
-- Threshold signatures: lib/ic0/threshold_ecdsa.c. A signature is asked of the management canister,
-- whose reply or rejection comes in a later message.
-- The system's answer to `ic0_call_perform` is an argument. Debug output is left out.
pub mod Histories
pub mod Path
pub mod Request
mod Tests
use idris2_ouc.Base.{
  ℕ, zero, suc, ◌+◌, ◌-◌, ◌*◌, ◌/◌, ◌<◌, List, [], ◌∷◌, ◌++◌, if◌then◌else◌, ltb, ◌==◌, length,
  take, drop, get_or, replicate,
}
use idris2_ouc.Word.{u32}
use idris2_ouc.Word.Bytes.{write_u32}
use idris2_ouc.Leb128.{encode_leb128, encode_leb128_signed}

-- `g_sign_status`: 0, 1 and -1.
pub data Status : Type 0 where
  pending success error : Status

-- The variables `g_*`. `g_chain_code` is never used.
pub record Ecdsa : Type 0 where
  pub message_hash : List ℕ
  pub derivation_path : List ℕ
  pub derivation_path_len : ℕ
  pub key_name : List ℕ
  pub key_name_len : ℕ
  pub signature : List ℕ
  pub signature_len : ℕ
  pub sign_status : Status
  pub public_key : List ℕ
  pub public_key_len : ℕ

unfoldable pub initial : Ecdsa
initial = record {
  message_hash = replicate 32 0;
  derivation_path = replicate 128 0;
  derivation_path_len = 0;
  key_name = replicate 32 0;
  key_name_len = 0;
  signature = replicate 72 0;
  signature_len = 0;
  sign_status = pending;
  public_key = replicate 65 0;
  public_key_len = 0;
}

abbrev pub key_production : List ℕ
key_production = b'k' ∷ b'e' ∷ b'y' ∷ b'_' ∷ b'1' ∷ []

abbrev pub key_test : List ℕ
key_test = b't' ∷ b'e' ∷ b's' ∷ b't' ∷ b'_' ∷ b'k' ∷ b'e' ∷ b'y' ∷ b'_' ∷ b'1' ∷ []

abbrev pub key_local : List ℕ
key_local = b'd' ∷ b'f' ∷ b'x' ∷ b'_' ∷ b't' ∷ b'e' ∷ b's' ∷ b't' ∷ b'_' ∷ b'k' ∷ b'e' ∷ b'y' ∷ []

-- The eight 32-bit words are stored in the little-endian order of WebAssembly.
unfoldable pub ouc_ecdsa_set_message_hash : ℕ → ℕ → ℕ → ℕ → ℕ → ℕ → ℕ → ℕ → Ecdsa → Ecdsa
ouc_ecdsa_set_message_hash h0 h1 h2 h3 h4 h5 h6 h7 s = record s {
  message_hash =
      write_u32 h0
      ++ (write_u32 h1
          ++ (write_u32 h2
              ++ (write_u32 h3
                  ++ (write_u32 h4 ++ (write_u32 h5 ++ (write_u32 h6 ++ write_u32 h7))))));
}

unfoldable pub key_of : ℕ → List ℕ
key_of key_type =
    if u32 key_type == 0 then key_production else if u32 key_type == 1 then key_test else key_local

unfoldable pub ouc_ecdsa_set_key : ℕ → Ecdsa → Ecdsa
ouc_ecdsa_set_key key_type s =
    let name = key_of key_type in
    record s { key_name = name ++ drop (length name) s.key_name; key_name_len = length name }

-- An int64_t below 0 is at least 2 ^ 63 in two's complement.
unfoldable pub ouc_ecdsa_set_derivation_segment : ℕ → ℕ → Ecdsa → Ecdsa
ouc_ecdsa_set_derivation_segment index value s =
    if ltb index 5
    then record s {
      derivation_path =
          take (index * 4) s.derivation_path
          ++ (write_u32 value ++ drop (index * 4 + 4) s.derivation_path);
      derivation_path_len =
          if ltb s.derivation_path_len ((index + 1) * 4)
          then (index + 1) * 4
          else s.derivation_path_len;
    }
    else s

unfoldable pub ouc_ecdsa_clear_path : Ecdsa → Ecdsa
ouc_ecdsa_clear_path s = record s { derivation_path_len = 0; derivation_path = replicate 128 0 }

-- A type code of Candid, `code` below zero.
unfoldable pub type_code : ℕ → List ℕ
type_code code = encode_leb128_signed 10 (18446744073709551616 - code)

-- The type table and the argument's type.
unfoldable pub request_types : List ℕ
request_types =
    b'D' ∷ b'I' ∷ b'D' ∷ b'L' ∷ encode_leb128 10 4
    ++ (0x6D ∷ type_code 19)
    ++ (0x6C ∷ encode_leb128 10 2)
    ++ (encode_leb128 10 0x8DF6D6D2 ++ encode_leb128 10 2)
    ++ (encode_leb128 10 0xD3C5CC99 ++ type_code 15)
    ++ (0x6B ∷ encode_leb128 10 1)
    ++ (encode_leb128 10 0xCFD1E33B ++ type_code 17)
    ++ (0x6C ∷ encode_leb128 10 3)
    ++ (encode_leb128 10 0x8F3AB8BA ++ encode_leb128 10 0)
    ++ (encode_leb128 10 0x931C2F2A ++ encode_leb128 10 1)
    ++ (encode_leb128 10 0xCE890A2B ++ type_code 19)
    ++ (encode_leb128 10 1 ++ encode_leb128 10 3)

-- The loop over the segments with `n` rounds left at `i`.
unfoldable pub segments_loop : ℕ → ℕ → List ℕ → List ℕ
segments_loop zero i path = []
segments_loop (suc n) i path =
    encode_leb128 10 4 ++ (take 4 (drop (i * 4) path) ++ segments_loop n (i + 1) path)

-- The bytes in `buf`.
unfoldable pub encode_sign_request : Ecdsa → List ℕ
encode_sign_request s =
    request_types
    ++ (encode_leb128 10 (s.derivation_path_len / 4)
        ++ (segments_loop (s.derivation_path_len / 4) 0 s.derivation_path
            ++ (encode_leb128 10 0
                ++ (encode_leb128 10 s.key_name_len
                    ++ (take s.key_name_len s.key_name
                        ++ (encode_leb128 10 32 ++ s.message_hash))))))

abbrev pub method_sign : List ℕ
method_sign =
    b's' ∷ b'i' ∷ b'g' ∷ b'n' ∷ b'_' ∷ b'w' ∷ b'i' ∷ b't' ∷ b'h' ∷ b'_' ∷ b'e' ∷ b'c' ∷ b'd' ∷ b's'
    ∷ b'a' ∷ []

-- A call of another canister, as `ic0_call_new`, `ic0_call_data_append` and `ic0_call_cycles_add128`
-- put it together. The management canister is the empty principal.
pub record Call : Type 0 where
  pub callee : List ℕ
  pub method : List ℕ
  pub payload : List ℕ
  pub cycles : ℕ

-- A call with the table indices and the environments of its callbacks.
pub record SignCall : Type 0 where
  pub request : Call
  pub reply_fun : ℕ
  pub reply_env : ℕ
  pub reject_fun : ℕ
  pub reject_env : ℕ

-- The call that is performed, and what `ouc_ecdsa_sign` returns: `performed`, the system's answer.
unfoldable pub ouc_ecdsa_sign : ℕ → Ecdsa → (ℕ × SignCall) × Ecdsa
ouc_ecdsa_sign performed s =
    let s' = record s { sign_status = pending; signature_len = 0 } in
    (
      (
        performed,
        record {
          request = record {
            callee = [];
            method = method_sign;
            payload = encode_sign_request s';
            cycles = 25000000000;
          };
          reply_fun = 0;
          reply_env = 0;
          reject_fun = 0;
          reject_env = 0;
        },
      ),
      s',
    )

unfoldable pub ecdsa_sign_reply_callback : Ecdsa → Ecdsa
ecdsa_sign_reply_callback s = record s { sign_status = success }

unfoldable pub ecdsa_sign_reject_callback : Ecdsa → Ecdsa
ecdsa_sign_reject_callback s = record s { sign_status = error }

-- An int64_t in two's complement.
unfoldable pub ouc_ecdsa_get_status : Ecdsa → ℕ
ouc_ecdsa_get_status s = elim s.sign_status [
  | pending ↦ 0
  | success ↦ 1
  | error ↦ 18446744073709551615
]

unfoldable pub ouc_ecdsa_get_signature_len : Ecdsa → ℕ
ouc_ecdsa_get_signature_len s = s.signature_len

unfoldable pub ouc_ecdsa_get_signature_byte : ℕ → Ecdsa → ℕ
ouc_ecdsa_get_signature_byte index s =
    if ltb index s.signature_len then get_or s.signature index 0 else 0

unfoldable pub ouc_ecdsa_get_pubkey_len : Ecdsa → ℕ
ouc_ecdsa_get_pubkey_len s = s.public_key_len

unfoldable pub ouc_ecdsa_get_pubkey_byte : ℕ → Ecdsa → ℕ
ouc_ecdsa_get_pubkey_byte index s =
    if ltb index s.public_key_len then get_or s.public_key index 0 else 0
