-- ===== src/StableKv/Tests.antt =====
-- Runs of the key-value storage on a concrete memory: one entry, the key 1 2 with the value 7 8 9.
use idris2_ouc.Base.{ℕ, ◌≡◌, ◌≢◌, refl, List, [], ◌∷◌, true, false, Option, some, ◌>>=◌, arith}
use idris2_ouc.Word.Bytes.{write_u32, read_u32}
use idris2_ouc.Stable.Flat.{Flat, flat, empty_memory}
use idris2_ouc.Stable.Span.{patch, bytes}
use idris2_ouc.Stable.Growth.{GrowsTo32}
use idris2_ouc.StableKv.{
  Kv, put, get, header, init_if_needed, mem_eq, init_fresh, empty_header, find_entry, append_entry,
  ensure_capacity, entry_size, flush_header,
}
use idris2_ouc.StableKv.Log.{Log, lookup, log_put}
use idris2_ouc.StableKv.Layout.{Holds}
use idris2_ouc.StableKv.Refine.{reply, get-lookup}
use idris2_ouc.StableKv.Put.{put-log_put}
use idris2_ouc.StableKv.Promise.{winner, put-get, init-recovers}

abbrev start : Kv Flat
start = record { count = 0; next_free = 0; initialized = false; mem = empty_memory }

-- What a `get` answers after some calls of `put`.
answer : List ℕ → Option (ℕ × Kv Flat) → Option (Option (ℕ × List ℕ))
unfolding get
answer key r = do (rc, s) ← r; (out, s') ← get flat key 100 s; some out

put_get :
    answer (1 ∷ 2 ∷ []) (put flat (1 ∷ 2 ∷ []) (7 ∷ 8 ∷ 9 ∷ []) start)
    ≡ some (some (3, 7 ∷ 8 ∷ 9 ∷ []))
unfolding answer put write_u32 read_u32 patch init_if_needed init_fresh empty_header find_entry
    append_entry ensure_capacity entry_size flush_header header mem_eq
put_get = refl

abbrev one_key : List ℕ
one_key = 1 ∷ 2 ∷ []

abbrev one_val : List ℕ
one_val = 7 ∷ 8 ∷ 9 ∷ []

abbrev one_log : Log
one_log = (one_key, one_val) ∷ []

abbrev one_image : List ℕ
one_image =
    b'S' ∷ b'T' ∷ b'K' ∷ b'V' ∷ 1 ∷ 0 ∷ 0 ∷ 0 ∷ 25 ∷ 0 ∷ 0 ∷ 0 ∷ 2 ∷ 0 ∷ 0 ∷ 0 ∷ 1 ∷ 2 ∷ 3 ∷ 0 ∷ 0
    ∷ 0 ∷ 7 ∷ 8 ∷ 9 ∷ []

abbrev one_memory : Flat
one_memory = record { size = 1; cell = patch 0 one_image (λ _. 0) }

abbrev one_entry : Kv Flat
one_entry = record { count = 1; next_free = 25; initialized = true; mem = one_memory }

one_entry-Holds : Holds flat one_entry one_log
unfolding patch header write_u32
one_entry-Holds = record {
  ready = refl;
  counted = refl;
  next = refl;
  entries = (record { key_len = refl; key = refl; val_len = refl; val = refl }, tt);
  head = refl;
  room = omega arith;
  small = omega arith;
}

flat_grows : GrowsTo32 flat
flat_grows = λ n m h. refl

get-lookup_example :
    get flat one_key 2 one_entry ≡ some (reply 2 (lookup one_key one_log), one_entry)
get-lookup_example =
    get-lookup flat one_key 2 one_entry one_log (omega arith) (omega arith) one_entry-Holds

put-log_put_example :
    (s' : Kv Flat) × (put flat one_key (5 ∷ []) one_entry ≡ some (0, s'))
    × Holds flat s' (log_put one_key (5 ∷ []) one_log)
put-log_put_example =
    put-log_put flat one_key (5 ∷ []) one_entry one_log flat_grows (omega arith) (omega arith)
      one_entry-Holds

put-get_example :
    (s' : Kv Flat) × (put flat one_key (5 ∷ []) one_entry ≡ some (0, s'))
    × (get flat one_key 9 s' ≡ some (reply 9 (some (winner (5 ∷ []) (lookup one_key one_log))), s'))
put-get_example =
    put-get flat one_key (5 ∷ []) 9 one_entry one_log flat_grows (omega arith) (omega arith)
      (omega arith) one_entry-Holds

one_key-ne : one_key ≢ 3 ∷ []
one_key-ne = λ e. cc

abbrev foreign : Kv Flat
foreign = record start { mem = record { size = 1; cell = λ _. 7 } }

foreign_magic : mem_eq 4 (bytes (λ _. 7) 0 12) (b'S' ∷ b'T' ∷ b'K' ∷ b'V' ∷ []) ≡ false
unfolding mem_eq
foreign_magic = refl

abbrev upgraded : Kv Flat
upgraded = record { count = 0; next_free = 12; initialized = false; mem = one_memory }

init-recovers_example :
    (t' : Kv Flat) × (init_if_needed flat upgraded ≡ some t') × Holds flat t' one_log
init-recovers_example =
    init-recovers flat one_entry upgraded one_log one_entry-Holds (omega arith) refl refl
