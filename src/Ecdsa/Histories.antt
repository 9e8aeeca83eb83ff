-- ===== src/Ecdsa/Histories.antt =====
-- Every sequence of calls and callbacks of lib/ic0/threshold_ecdsa.c: what stays bounded, what the
-- status says, and that no signature ever arrives.
use idris2_ouc.Base.{
  ℕ, ◌+◌, ◌*◌, ◌%◌, ◌≤◌, ◌<◌, ◌≡◌, refl, List, [], ◌∷◌, ◌++◌, length, take, drop, Option, some,
  none, All, ap, ◌∙◌, length-append, length-take, length-drop, arith,
}
use idris2_ouc.Word.Bytes.{length-write_u32, write_u32}
use idris2_ouc.Ecdsa.{
  Ecdsa, Status, pending, success, error, initial, key_of, ouc_ecdsa_set_message_hash,
  ouc_ecdsa_set_key, ouc_ecdsa_set_derivation_segment, ouc_ecdsa_clear_path, ouc_ecdsa_sign,
  ecdsa_sign_reply_callback, ecdsa_sign_reject_callback, ouc_ecdsa_get_status,
  ouc_ecdsa_get_signature_len, ouc_ecdsa_get_signature_byte,
}

-- What Idris2 calls, and runs of the two callbacks. A request names table index 0 in their place, so
-- which function the system runs for its reply depends on the table of the module.
pub data Event : Type 0 where
  set_message_hash : ℕ → ℕ → ℕ → ℕ → ℕ → ℕ → ℕ → ℕ → Event
  set_key : ℕ → Event
  set_derivation_segment : ℕ → ℕ → Event
  clear_path : Event
  sign : ℕ → Event
  reply reject : Event

unfoldable pub step : Event → Ecdsa → Ecdsa
step (set_message_hash a b c d e f g h) s = ouc_ecdsa_set_message_hash a b c d e f g h s
step (set_key key_type) s = ouc_ecdsa_set_key key_type s
step (set_derivation_segment index value) s = ouc_ecdsa_set_derivation_segment index value s
step clear_path s = ouc_ecdsa_clear_path s
step (sign performed) s = (ouc_ecdsa_sign performed s).1
step reply s = ecdsa_sign_reply_callback s
step reject s = ecdsa_sign_reject_callback s

unfoldable pub run : List Event → Ecdsa → Ecdsa
run [] s = s
run (e ∷ es) s = run es (step e s)

-- The buffers keep their sizes, the path has at most five segments of four bytes, a name fits, and
-- there is no signature.
pub record IsSound (s : Ecdsa) : Type 0 where
  pub hash_size : length s.message_hash ≡ 32
  pub path_size : length s.derivation_path ≡ 128
  pub path_short : s.derivation_path_len ≤ 20
  pub path_whole : s.derivation_path_len % 4 ≡ 0
  pub name_size : length s.key_name ≡ 32
  pub name_short : s.key_name_len ≤ 12
  pub no_signature : s.signature_len ≡ 0

initial-IsSound : IsSound initial
unfolding initial
initial-IsSound = ground arith

length-key_of : (key_type : ℕ) → length (key_of key_type) ≤ 12
unfolding key_of
length-key_of key_type = ground arith

set_key-IsSound : (key_type : ℕ) (s : Ecdsa) → IsSound s → IsSound (ouc_ecdsa_set_key key_type s)
unfolding ouc_ecdsa_set_key
set_key-IsSound key_type s h = record {
  hash_size = h.hash_size;
  path_size = h.path_size;
  path_short = h.path_short;
  path_whole = h.path_whole;
  name_size = omega (
    arith,
    h.name_size,
    length-key_of key_type,
    length-append (key_of key_type) (drop (length (key_of key_type)) s.key_name),
    length-drop (length (key_of key_type)) s.key_name,
  );
  name_short = length-key_of key_type;
  no_signature = h.no_signature;
}

segment-size :
    (index value : ℕ) (path : List ℕ)
    → index < 5
    → length path ≡ 128
    → length (take (index * 4) path ++ (write_u32 value ++ drop (index * 4 + 4) path)) ≡ 128
segment-size index value path i h = omega (
  arith,
  h,
  length-append (take (index * 4) path) (write_u32 value ++ drop (index * 4 + 4) path),
  length-append (write_u32 value) (drop (index * 4 + 4) path),
  length-write_u32 value,
  length-take (index * 4) path,
  length-drop (index * 4 + 4) path,
)

set_segment-IsSound :
    (index value : ℕ) (s : Ecdsa)
    → IsSound s
    → IsSound (ouc_ecdsa_set_derivation_segment index value s)
unfolding ouc_ecdsa_set_derivation_segment
set_segment-IsSound index value s h = ground (arith, segment-size index value s.derivation_path)

step-IsSound : (e : Event) (s : Ecdsa) → IsSound s → IsSound (step e s)
unfolding step ouc_ecdsa_set_message_hash ouc_ecdsa_clear_path ouc_ecdsa_sign
    ecdsa_sign_reply_callback ecdsa_sign_reject_callback write_u32
step-IsSound (set_message_hash a b c d e f g i) s h = ground (arith, h)
step-IsSound (set_key key_type) s h = set_key-IsSound key_type s h
step-IsSound (set_derivation_segment index value) s h = set_segment-IsSound index value s h
step-IsSound clear_path s h = ground (arith, h)
step-IsSound (sign performed) s h = ground (arith, h)
step-IsSound reply s h = ground (arith, h)
step-IsSound reject s h = ground (arith, h)

run-IsSound : (es : List Event) (s : Ecdsa) → IsSound s → IsSound (run es s)
unfolding run
run-IsSound [] s h = h
run-IsSound (e ∷ es) s h = run-IsSound es (step e s) (step-IsSound e s h)

-- After every sequence of calls and callbacks since the start the buffers have their sizes, the path
-- has at most five whole segments, and the name of the key fits its buffer.
pub run-initial-IsSound : (es : List Event) → IsSound (run es initial)
run-initial-IsSound es = run-IsSound es initial initial-IsSound

byte_none : (s : Ecdsa) (i : ℕ) → s.signature_len ≡ 0 → ouc_ecdsa_get_signature_byte i s ≡ 0
unfolding ouc_ecdsa_get_signature_byte
byte_none s i e = ground arith

-- No sequence of calls and callbacks brings a signature: its length is 0 and every byte of it is
-- answered as 0, also when the status says success.
pub run-no_signature :
    (es : List Event) (i : ℕ)
    → (ouc_ecdsa_get_signature_len (run es initial) ≡ 0)
      × (ouc_ecdsa_get_signature_byte i (run es initial) ≡ 0)
unfolding ouc_ecdsa_get_signature_len
run-no_signature es i =
    let e = (run-initial-IsSound es).no_signature in (e, byte_none (run es initial) i e)

-- What an event decides about the signature that was asked for.
unfoldable pub decides : Event → Option Status
decides (set_message_hash a b c d e f g h) = none
decides (set_key key_type) = none
decides (set_derivation_segment index value) = none
decides clear_path = none
decides (sign performed) = some pending
decides reply = some success
decides reject = some error

unfoldable pub status_word : Status → ℕ
status_word pending = 0
status_word success = 1
status_word error = 18446744073709551615

step_quiet : (e : Event) (s : Ecdsa) → decides e ≡ none → (step e s).sign_status ≡ s.sign_status
unfolding decides step ouc_ecdsa_set_message_hash ouc_ecdsa_set_key ouc_ecdsa_set_derivation_segment
    ouc_ecdsa_clear_path
step_quiet (set_message_hash a b c d e f g h) s q = refl
step_quiet (set_key key_type) s q = refl
step_quiet (set_derivation_segment index value) s q = ground arith
step_quiet clear_path s q = refl
step_quiet (sign performed) s q = cc
step_quiet reply s q = cc
step_quiet reject s q = cc

step-decides :
    (e : Event) (s : Ecdsa) (x : Status) → decides e ≡ some x → (step e s).sign_status ≡ x
unfolding decides step ouc_ecdsa_sign ecdsa_sign_reply_callback ecdsa_sign_reject_callback
step-decides (set_message_hash a b c d e f g h) s x q = cc
step-decides (set_key key_type) s x q = cc
step-decides (set_derivation_segment index value) s x q = cc
step-decides clear_path s x q = cc
step-decides (sign performed) s x q = cc
step-decides reply s x q = cc
step-decides reject s x q = cc

run_quiet :
    (es : List Event) (s : Ecdsa)
    → All (λ e. decides e ≡ none) es
    → (run es s).sign_status ≡ s.sign_status
unfolding run
run_quiet [] s q = refl
run_quiet (e ∷ es) s (q, qs) = run_quiet es (step e s) qs ∙ step_quiet e s q

run-append : (es fs : List Event) (s : Ecdsa) → run (es ++ fs) s ≡ run fs (run es s)
unfolding run
run-append [] fs s = refl
run-append (e ∷ es) fs s = run-append es fs (step e s)

status-word : (s : Ecdsa) (x : Status) → s.sign_status ≡ x → ouc_ecdsa_get_status s ≡ status_word x
unfolding ouc_ecdsa_get_status status_word
status-word s x e = ground arith

-- The status that Idris2 reads is the one that the last of these decided: 0 after a new request, 1 after
-- a run of the reply callback and -1 after a run of the reject callback, whatever is set in
-- between.
pub status-last :
    (es : List Event) (e : Event) (later : List Event) (x : Status) (s : Ecdsa)
    → decides e ≡ some x
    → All (λ e'. decides e' ≡ none) later
    → ouc_ecdsa_get_status (run (es ++ e ∷ later) s) ≡ status_word x
unfolding run
status-last es e later x s d q = status-word (run (es ++ e ∷ later) s) x (
    ap (λ u. u.sign_status) (run-append es (e ∷ later) s)
    ∙ run_quiet later (step e (run es s)) q
    ∙ step-decides e (run es s) x d)
