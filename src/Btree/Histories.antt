-- ===== src/Btree/Histories.antt =====
-- Every history of the tree of lib/ic0/stable_btree.c: operations in any order, restarts of the
-- canister between them, and the list of entries that they leave.
use idris2_ouc.Base.{ℕ, ◌<◌, ◌≡◌, List, [], ◌∷◌, Option, some, Bool, false, length, inr}
use idris2_ouc.Stable.{StableApi}
use idris2_ouc.Btree.{Tree, stbt_put, stbt_get, stbt_clear}
use idris2_ouc.Btree.Entries.{Entry}
use idris2_ouc.Btree.Refine.{put}
use idris2_ouc.Btree.Reads.{IsTreeOf, stbt_get-lookup, clear-Holds}
use idris2_ouc.Btree.Promise.{put-insert, running-IsTreeOf}

-- What a user of the tree does, and a restart of the canister, which keeps the stable memory only.
pub data Op : Type 0 where
  putting : List ℕ → List ℕ → Op
  getting : List ℕ → ℕ → Op
  clearing restarting : Op

-- What an operation does to the list of entries.
unfoldable pub effect : Op → List Entry → List Entry
effect (putting key val) es = put key val es
effect (getting key max) es = es
effect clearing es = []
effect restarting es = es

unfoldable pub effects : List Op → List Entry → List Entry
effects [] es = es
effects (op ∷ ops) es = effects ops (effect op es)

module _ (api : StableApi) where
  open api use {Mem}

  -- One operation of the code on a tree. Keys, values and buffers have at most 65535 bytes.
  pub data Step : Op → Tree Mem → Tree Mem → Type 0 where
    puts :
        {key val : List ℕ} {t t' : Tree Mem} {taken : Bool}
        → length key < 65536
        → length val < 65536
        → stbt_put api key val t ≡ some (taken, t')
        → Step (putting key val) t t'
    gets :
        {key : List ℕ} {max : ℕ} {t t' : Tree Mem} {out : Option (ℕ × List ℕ)}
        → length key < 65536
        → max < 65536
        → stbt_get api key max t ≡ some (out, t')
        → Step (getting key max) t t'
    clears : {t t' : Tree Mem} → stbt_clear api t ≡ some t' → Step clearing t t'
    restarts : {t t' : Tree Mem} → t'.initialized ≡ false → t'.mem ≡ t.mem → Step restarting t t'

  pub data Steps : List Op → Tree Mem → Tree Mem → Type 0 where
    here : {t : Tree Mem} → Steps [] t t
    next :
        {op : Op} {ops : List Op} {t t' t'' : Tree Mem}
        → Step op t t'
        → Steps ops t' t''
        → Steps (op ∷ ops) t t''

  same_tree :
      {A : Type 0} {o : Option (A × Tree Mem)} {a b : A} {t u : Tree Mem}
      → o ≡ some (a, t)
      → o ≡ some (b, u)
      → t ≡ u
  same_tree e g = cc

  Step-effect :
      (op : Op) (es : List Entry) (t t' : Tree Mem)
      → IsTreeOf api es t
      → Step op t t'
      → IsTreeOf api (effect op es) t'
  unfolding effect
  Step-effect (putting key val) es t t' h (puts hk hv e) =
      let (m', e', h') = put-insert api es t key val h hk hv in
      rw (same_tree e e') (running-IsTreeOf api (put key val es) m' h')
  Step-effect (getting key max) es t t' h (gets hk hm e) =
      rw (same_tree e (stbt_get-lookup api es t key max h hk hm))
        (running-IsTreeOf api es t.mem h.0)
  Step-effect clearing es t t' h (clears e) =
      let (m', e', h') = clear-Holds api t h.0.room in
      rw (cleared e e') (running-IsTreeOf api [] m' h')
    where
      cleared : {o : Option (Tree Mem)} {u v : Tree Mem} → o ≡ some u → o ≡ some v → u ≡ v
      cleared p q = cc
  Step-effect restarting es t t' h (restarts e em) = (rw em h.0, inr e)

  -- Whatever puts and gets with keys, values and buffers of at most 65535 bytes, clears and restarts
  -- follow each other on a tree of a list of entries, they leave the tree of the list that the same
  -- operations on lists leave: a sorted one.
  pub Steps-effects :
      (ops : List Op) (es : List Entry) (t t' : Tree Mem)
      → IsTreeOf api es t
      → Steps ops t t'
      → IsTreeOf api (effects ops es) t'
  unfolding effects
  Steps-effects [] es t t' h here = h
  Steps-effects (op ∷ ops) es t t'' h (next {t' = t'} s ss) =
      Steps-effects ops (effect op es) t' t'' (Step-effect op es t t' h s) ss
