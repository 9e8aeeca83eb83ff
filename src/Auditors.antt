-- ===== src/Auditors.antt =====
-- The entry points for auditors in lib/ic0/canister_entry.c, and getVersion: calls of the Idris2 code. The
-- number of auditors is read from the C state after the call.
use idris2_ouc.Base.{
  ℕ, ◌+◌, ◌/◌, ◌%◌, List, [], ◌∷◌, ◌++◌, Option, some, ◌>>=◌, ltb, leb, ◌==◌, if◌then◌else◌,
}
use idris2_ouc.Candid.{reply_candid_text, reply_candid_nat}
use idris2_ouc.FfiBridge.{ouc_c_set_arg_i32}
use idris2_ouc.Handlers.{Counters, ouc_get_auditor_count}
use idris2_ouc.Idris.{Machine, call_idris2}

abbrev pub registered_prefix : List ℕ
registered_prefix = b'r' ∷ b'e' ∷ b'g' ∷ b'i' ∷ b's' ∷ b't' ∷ b'e' ∷ b'r' ∷ b'e' ∷ b'd' ∷ b':' ∷ []

abbrev pub ok_text : List ℕ
ok_text = b'o' ∷ b'k' ∷ []

abbrev pub exists_text : List ℕ
exists_text = b'e' ∷ b'x' ∷ b'i' ∷ b's' ∷ b't' ∷ b's' ∷ []

abbrev pub err_text : List ℕ
err_text = b'e' ∷ b'r' ∷ b'r' ∷ []

abbrev pub cnt_text : List ℕ
cnt_text = b',' ∷ b'c' ∷ b'n' ∷ b't' ∷ b'=' ∷ []

abbrev pub suspended_text : List ℕ
suspended_text =
    b'a' ∷ b'u' ∷ b'd' ∷ b'i' ∷ b't' ∷ b'o' ∷ b'r' ∷ b' ' ∷ b's' ∷ b'u' ∷ b's' ∷ b'p' ∷ b'e' ∷ b'n'
    ∷ b'd' ∷ b'e' ∷ b'd' ∷ []

abbrev pub reactivated_text : List ℕ
reactivated_text =
    b'a' ∷ b'u' ∷ b'd' ∷ b'i' ∷ b't' ∷ b'o' ∷ b'r' ∷ b' ' ∷ b'r' ∷ b'e' ∷ b'a' ∷ b'c' ∷ b't' ∷ b'i'
    ∷ b'v' ∷ b'a' ∷ b't' ∷ b'e' ∷ b'd' ∷ []

abbrev pub auditor_not_found_text : List ℕ
auditor_not_found_text =
    b'a' ∷ b'u' ∷ b'd' ∷ b'i' ∷ b't' ∷ b'o' ∷ b'r' ∷ b' ' ∷ b'n' ∷ b'o' ∷ b't' ∷ b' ' ∷ b'f' ∷ b'o'
    ∷ b'u' ∷ b'n' ∷ b'd' ∷ []

abbrev pub suspension_failed_text : List ℕ
suspension_failed_text =
    b'e' ∷ b'r' ∷ b'r' ∷ b'o' ∷ b'r' ∷ b':' ∷ b' ' ∷ b's' ∷ b'u' ∷ b's' ∷ b'p' ∷ b'e' ∷ b'n' ∷ b's'
    ∷ b'i' ∷ b'o' ∷ b'n' ∷ b' ' ∷ b'f' ∷ b'a' ∷ b'i' ∷ b'l' ∷ b'e' ∷ b'd' ∷ []

abbrev pub reactivation_failed_text : List ℕ
reactivation_failed_text =
    b'e' ∷ b'r' ∷ b'r' ∷ b'o' ∷ b'r' ∷ b':' ∷ b' ' ∷ b'r' ∷ b'e' ∷ b'a' ∷ b'c' ∷ b't' ∷ b'i' ∷ b'v'
    ∷ b'a' ∷ b't' ∷ b'i' ∷ b'o' ∷ b'n' ∷ b' ' ∷ b'f' ∷ b'a' ∷ b'i' ∷ b'l' ∷ b'e' ∷ b'd' ∷ []

-- The last two digits of the number, the first of them from 10 on.
unfoldable pub auditor_text : ℕ → ℕ → List ℕ
auditor_text result count =
    registered_prefix
    ++ ((if result == 1 then ok_text else if result == 0 then exists_text else err_text)
        ++ (cnt_text
            ++ ((if leb 10 count then (48 + count / 10 % 10) ∷ [] else [])
                ++ ((48 + count % 10) ∷ []))))

-- `(uint64_t)version` of an int32_t.
unfoldable pub version_word : ℕ → ℕ
version_word version = if ltb version 2147483648 then version else version + 18446744069414584320

-- `counters` is the part of the state that holds the counters.
module _ {S : Type 0} (counters : S → Counters) (main : Machine S → Option (Machine S)) where
  unfoldable pub canister_query_get_version : Machine S → Option (List ℕ × Machine S)
  canister_query_get_version m = do
    (version, m') ← call_idris2 main 1 m
    some (reply_candid_nat (version_word version), m')

  unfoldable pub canister_update_register_auditor : Machine S → Option (List ℕ × Machine S)
  canister_update_register_auditor m = do
    (result, m') ← call_idris2 main 10 m
    some (reply_candid_text (auditor_text result (ouc_get_auditor_count (counters m'.rest))), m')

  -- The argument is set, and reset by the call.
  unfoldable pub canister_update_suspend_auditor : Machine S → Option (List ℕ × Machine S)
  canister_update_suspend_auditor m = do
    (result, m') ← call_idris2 main 11 (record m { channel = ouc_c_set_arg_i32 1 0 m.channel })
    some (
      reply_candid_text (
          if result == 1
          then suspended_text
          else if result == 0
          then auditor_not_found_text
          else suspension_failed_text),
      m',
    )

  unfoldable pub canister_update_reactivate_auditor : Machine S → Option (List ℕ × Machine S)
  canister_update_reactivate_auditor m = do
    (result, m') ← call_idris2 main 12 (record m { channel = ouc_c_set_arg_i32 1 0 m.channel })
    some (
      reply_candid_text (
          if result == 1
          then reactivated_text
          else if result == 0
          then auditor_not_found_text
          else reactivation_failed_text),
      m',
    )
