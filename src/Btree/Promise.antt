-- ===== src/Btree/Promise.antt =====
-- What `stbt_put` of lib/ic0/stable_btree.c promises: it changes the list of entries as the abstract
-- put does, and `stbt_get` answers accordingly.
use idris2_ouc.Base.{
  ℕ, ◌<◌, ◌≡◌, ◌≢◌, ◌∙◌, refl, ap, List, Option, some, Bool, true, false, ltb, ◌||◌, length, arith,
  inl, inr, Bool-cases,
}
use idris2_ouc.Stable.{StableApi}
use idris2_ouc.Btree.{Tree, stbt_put, stbt_get}
use idris2_ouc.Btree.Entries.{Entry, lookup, insert, lookup-insert_self, lookup-insert_ne}
use idris2_ouc.Btree.Refine.{running, Holds, u16_small, accepts, put}
use idris2_ouc.Btree.Reads.{IsTreeOf, init-running, answer, stbt_get-lookup, down}
use idris2_ouc.Btree.Puts.{put_at_lem}

too_big :
    (key val : List ℕ) (es : List Entry)
    → (ltb 256 (length key) || ltb 1024 (length val)) ≡ true
    → accepts key val es ≡ false
unfolding accepts
too_big key val es h = ground arith

put_refused :
    (key val : List ℕ) (es : List Entry) → accepts key val es ≡ false → put key val es ≡ es
unfolding put
put_refused key val es h = rw h refl

put_accepted :
    (key val : List ℕ) (es : List Entry)
    → accepts key val es ≡ true
    → put key val es ≡ insert key val es
unfolding put
put_accepted key val es h = rw h refl

lookup-put_ne :
    (key val j : List ℕ) (es : List Entry) → j ≢ key → lookup j (put key val es) ≡ lookup j es
unfolding put
lookup-put_ne key val j es ne = ground (arith, lookup-insert_ne key val j es ne)

module _ (api : StableApi) where
  open api use {Mem, pages, byte}

  -- `stbt_put` of a key and a value of at most 65535 bytes answers whether the list of entries takes
  -- them, and leaves the tree of the new list: with the entry inserted in the order of the keys or
  -- its value overwritten, or unchanged.
  pub put-insert :
      (es : List Entry) (t : Tree Mem) (key val : List ℕ)
      → IsTreeOf api es t
      → length key < 65536
      → length val < 65536
      → (m' : Mem) × (stbt_put api key val t
          ≡ some (accepts key val es, running api (length (put key val es)) m'))
        × Holds api (put key val es) m'
  unfolding stbt_put running
  put-insert es t key val h hk hv =
      elim (Bool-cases (ltb 256 (length key) || ltb 1024 (length val))) [
        | inl c ↦ (
          t.mem,
          rw
              (
                init-running api es t h,
                u16_small (length key) hk,
                u16_small (length val) hv,
                c,
                too_big key val es c,
                put_refused key val es (too_big key val es c),
              )
              refl,
          rw (put_refused key val es (too_big key val es c)) h.0,
        )
        | inr c ↦
            let (m', e, h') = put_at_lem api key val es t.mem (ground arith) (ground arith) h.0 in
            (
              m',
              rw
                  (
                    init-running api es t h,
                    u16_small (length key) hk,
                    u16_small (length val) hv,
                    c,
                    down api false key (length key) (length es) t.mem,
                    u16_small (length key) hk,
                    u16_small (length val) hv,
                  )
                  e,
              h',
            )
      ]

  pub running-IsTreeOf :
      (es : List Entry) (m : Mem) → Holds api es m → IsTreeOf api es (running api (length es) m)
  unfolding running
  running-IsTreeOf es m h = (h, inl refl)

  get-running :
      (es : List Entry) (m : Mem) (key : List ℕ) (max : ℕ)
      → Holds api es m
      → length key < 65536
      → max < 65536
      → stbt_get api key max (running api (length es) m)
        ≡ some (answer max (lookup key es), running api (length es) m)
  unfolding running
  get-running es m key max h hk hm =
      stbt_get-lookup api es (running api (length es) m) key max (running-IsTreeOf es m h) hk hm

  -- When `stbt_put` of a key and a value answers 0 for success, `stbt_get` of the key answers the
  -- value from then on. (Keys, values and a buffer of at most 65535 bytes.)
  pub stbt_put-stbt_get :
      (es : List Entry) (t : Tree Mem) (key val : List ℕ) (max : ℕ)
      → IsTreeOf api es t
      → length key < 65536
      → length val < 65536
      → max < 65536
      → accepts key val es ≡ true
      → (t' : Tree Mem) × (stbt_put api key val t ≡ some (true, t'))
        × (stbt_get api key max t' ≡ some (answer max (some val), t'))
  stbt_put-stbt_get es t key val max h hk hv hm ok =
      let (m', e, h') = put-insert es t key val h hk hv in
      (
        running api (length (put key val es)) m',
        e ∙ ap (λ b. some (b, running api (length (put key val es)) m')) ok,
        get-running (put key val es) m' key max h' hk hm
            ∙ ap (λ o. some (answer max o, running api (length (put key val es)) m'))
                (ap (lookup key) (put_accepted key val es ok) ∙ lookup-insert_self key val es),
      )

  -- Whatever `stbt_put` answers, `stbt_get` answers for every other key what it answered before.
  -- (Keys, a value and a buffer of at most 65535 bytes.)
  pub put-get_ne :
      (es : List Entry) (t : Tree Mem) (key val j : List ℕ) (max : ℕ)
      → IsTreeOf api es t
      → j ≢ key
      → length key < 65536
      → length j < 65536
      → length val < 65536
      → max < 65536
      → (taken : Bool) × (t0 : Tree Mem) × (t' : Tree Mem) × (out : Option (ℕ × List ℕ)) × (stbt_get
            api j max t
          ≡ some (out, t0))
        × (stbt_put api key val t ≡ some (taken, t'))
        × (stbt_get api j max t' ≡ some (out, t'))
  put-get_ne es t key val j max h ne hk hj hv hm =
      let (m', e, h') = put-insert es t key val h hk hv in
      let t' = running api (length (put key val es)) m' in
      (
        accepts key val es,
        running api (length es) t.mem,
        t',
        answer max (lookup j es),
        stbt_get-lookup api es t j max h hj hm,
        e,
        get-running (put key val es) m' j max h' hj hm
            ∙ ap (λ o. some (answer max o, t')) (lookup-put_ne key val j es ne),
      )
