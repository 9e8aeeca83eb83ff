-- ===== src/Btree/Tests.antt =====
-- The theorems on the tree on a concrete memory.
use idris2_ouc.Base.{refl, if◌then◌else◌}
use idris2_ouc.Btree.{stbt_put}
use idris2_ouc.Base.{◌≡◌, [], ◌∷◌, false, some, arith}
use idris2_ouc.Stable.Flat.{Flat, flat}
use idris2_ouc.Btree.{Tree, stbt_get}
use idris2_ouc.Btree.Order.{lex}
use idris2_ouc.Base.{ℕ, ◌+◌, ◌-◌, ◌≤◌, List, ltb, get_or, length, replicate, inr, ◌≢◌}
use idris2_ouc.Word.Bytes.{write_u32}
use idris2_ouc.Btree.{header_bytes, two_bytes}
use idris2_ouc.Btree.Entries.{Entry, lookup}
use idris2_ouc.Btree.Layout.{leaf_head, lay, entry_bytes, size, entry_size}
use idris2_ouc.Btree.Search.{leaf_page}
use idris2_ouc.Btree.Refine.{Holds, running, accepts, put}
use idris2_ouc.Btree.Reads.{IsTreeOf, clear-Holds, stbt_get-lookup, answer}
use idris2_ouc.Btree.Promise.{put-insert}
use idris2_ouc.Btree.Histories.{
  Op, putting, getting, clearing, restarting, Steps, Steps-effects, effects, puts, gets, clears,
  restarts, here, next,
}
use idris2_ouc.Btree.Scan.{Scan, stbt_scan_collect}
use idris2_ouc.Btree.Prefix.{matching, starts}
use idris2_ouc.Btree.Matches.{collect-matching, collected}
use idris2_ouc.Base.{true}

abbrev idle : Scan
idle = record { leaf_page = 0; leaf_offset = 0; prefix = []; prefix_len = 0; active = false }

abbrev one_page : Tree Flat
one_page = record {
  magic = 0;
  root_page = 0;
  page_count = 0;
  entry_count = 0;
  height = 0;
  initialized = false;
  mem = record { size = 1; cell = λ _. 7 };
}

-- A memory with the header and the leaf of one entry.
abbrev entries : List Entry
entries = (1 ∷ 2 ∷ [], 7 ∷ []) ∷ []

abbrev one_entry : Flat
one_entry = record {
  size = 1;
  cell = λ a.
      if ltb a 20
      then get_or (header_bytes 1413633107 1 2 1 1) a 0
      else get_or (leaf_page entries []) (a - 4096) 0;
}

one_entry-Holds : Holds flat entries one_entry
unfolding leaf_page leaf_head lay entry_bytes two_bytes header_bytes write_u32
one_entry-Holds = record {
  back = replicate 4078 0;
  leaf = refl;
  header = refl;
  sorted = (tt, tt);
  room = omega arith;
}

-- The canister has been restarted: only the memory is left.
abbrev restarted : Tree Flat
restarted = record {
  magic = 0;
  root_page = 0;
  page_count = 0;
  entry_count = 0;
  height = 0;
  initialized = false;
  mem = one_entry;
}

restarted-IsTreeOf : IsTreeOf flat entries restarted
restarted-IsTreeOf = (one_entry-Holds, inr refl)

stbt_get-lookup_example :
    stbt_get flat (1 ∷ 2 ∷ []) 9 restarted
    ≡ some (answer 9 (lookup (1 ∷ 2 ∷ []) entries), running flat (length entries) one_entry)
stbt_get-lookup_example =
    stbt_get-lookup flat entries restarted (1 ∷ 2 ∷ []) 9 restarted-IsTreeOf (omega arith)
      (omega arith)

put-insert_example :
    (m' : Flat) × (stbt_put flat (1 ∷ []) (8 ∷ []) restarted
      ≡ some (
        accepts (1 ∷ []) (8 ∷ []) entries,
        running flat (length (put (1 ∷ []) (8 ∷ []) entries)) m',
      ))
    × Holds flat (put (1 ∷ []) (8 ∷ []) entries) m'
put-insert_example =
    put-insert flat entries restarted (1 ∷ []) (8 ∷ []) restarted-IsTreeOf (omega arith)
      (omega arith)

accepts_one : accepts (1 ∷ []) (8 ∷ []) entries ≡ true
unfolding accepts lookup lex size entry_size
accepts_one = refl

abbrev first_key : List ℕ
first_key = 1 ∷ 2 ∷ []

abbrev new_key : List ℕ
new_key = 1 ∷ []

other_key : first_key ≢ new_key
other_key e = cc

-- A put, a restart, a get and a clear on the restarted tree.
abbrev ops : List Op
ops = putting new_key (8 ∷ []) ∷ restarting ∷ getting first_key 9 ∷ clearing ∷ []

abbrev later_entries : List Entry
later_entries = put new_key (8 ∷ []) entries

history : (t' : Tree Flat) × Steps flat ops restarted t'
unfolding running
history =
    let (m1, e1, h1) =
      put-insert flat entries restarted new_key (8 ∷ []) restarted-IsTreeOf (omega arith)
        (omega arith) in
    let t1 = running flat (length later_entries) m1 in
    let t2 : Tree Flat = record t1 { initialized = false } in
    let e2 =
      stbt_get-lookup flat later_entries t2 first_key 9 (h1, inr refl) (omega arith)
        (omega arith) in
    let t3 = running flat (length later_entries) m1 in
    let (m4, e4, h4) = clear-Holds flat t3 h1.room in
    (
      running flat 0 m4,
      next (puts (omega arith) (omega arith) e1) (
          next (restarts refl refl)
            (next (gets (omega arith) (omega arith) e2) (next (clears e4) here))),
    )

Steps-effects_example : IsTreeOf flat (effects ops entries) history.0
Steps-effects_example =
    Steps-effects flat ops entries restarted history.0 restarted-IsTreeOf history.1

collect-matching_example :
    (s' : Scan) × (stbt_scan_collect flat 1 (1 ∷ []) 100 10 restarted idle
      ≡ some (
        some (collected (matching (1 ∷ []) entries)),
        (running flat (length entries) one_entry, s'),
      ))
collect-matching_example =
    collect-matching flat entries (1 ∷ []) (omega arith) restarted idle 0 100 10 restarted-IsTreeOf
      (record { some_key = omega arith; key_fits = omega arith; val_fits = omega arith }, tt)
      (omega arith) (omega arith) enough room
  where
    enough : length (matching (1 ∷ []) entries) ≤ 10
    enough = unfold matching starts in omega arith

    room : 4 + size (matching (1 ∷ []) entries) ≤ 100
    room = unfold matching starts size entry_size in omega arith

-- The bytes that the scan writes: the number of the matches, and the entry.
collected_one :
    collected (matching (1 ∷ []) entries) ≡ (1, 1 ∷ 0 ∷ 0 ∷ 0 ∷ 2 ∷ 0 ∷ 1 ∷ 2 ∷ 1 ∷ 0 ∷ 7 ∷ [])
unfolding collected matching starts lay entry_bytes two_bytes write_u32
collected_one = refl
