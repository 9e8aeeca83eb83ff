-- ===== src/Monitor/Poll/Index.antt =====
-- Which contract `canister_update_pollContract` of lib/ic0/canister_entry.c polls.
use idris2_ouc.Base.{ℕ, ◌≤◌, ◌≡◌, refl, List, ◌∷◌, ◌++◌, Option, length, arith}
use idris2_ouc.Word.Bytes.{write_u32}
use idris2_ouc.Candid.{didl}
use idris2_ouc.Candid.RoundTrip.{load_short}
use idris2_ouc.Idris.{Machine}
use idris2_ouc.Monitor.Poll.{Monitoring, parse_index, poll_at, canister_update_poll_contract}

-- The Candid message of a number of the type nat32.
unfoldable pub nat32_arg : ℕ → List ℕ
nat32_arg n = didl ++ (0 ∷ 1 ∷ 0x79 ∷ write_u32 n)

-- Whatever the index in a message of the documented type is, the first contract is polled: the message
-- has 11 bytes, and the code reads an index only from 12 bytes on.
pub poll_contract-nat32_arg :
    {S : Type 0} (main : Machine S → Option (Machine S)) (performed idx : ℕ) (s : Monitoring)
    (m : Machine S)
    → canister_update_poll_contract main performed (nat32_arg idx) s m
      ≡ poll_at main performed 0 s m
unfolding canister_update_poll_contract parse_index nat32_arg write_u32
poll_contract-nat32_arg main performed idx s m =
    rw (canister_update_poll_contract, load_short (nat32_arg idx) length_ok) refl
  where
    length_ok : length (nat32_arg idx) ≤ 1024
    length_ok = omega arith
