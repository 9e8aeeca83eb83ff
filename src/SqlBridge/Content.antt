-- ===== src/SqlBridge/Content.antt =====
-- What a serialization tells of the open database.
use idris2_ouc.Base.{ℕ, ◌≡◌, refl, List, true, some, arith, length}
use idris2_ouc.Base.Split.{take_all}
use idris2_ouc.SqlBridge.Api.{SqliteApi}
use idris2_ouc.SqlBridge.{
  Bridge, sql_close, sql_is_open, sql_serialize_size, sql_serialize, deserialize_into,
  sql_deserialize,
}

module _ (api : SqliteApi) where
  open api use {
    Db, World, sqlite3_open, sqlite3_serialize, sqlite3_deserialize, serialize-deserialize,
  }

  -- The open database of `b` has the serialization `bs`.
  pub record HasContent (b : Bridge api) (bs : List ℕ) : Type 0 where
    pub handle : Db
    pub is_open : b.db ≡ some handle
    pub serialized : sqlite3_serialize handle b.world ≡ some bs

  module _ (b : Bridge api) (bs : List ℕ) (h : HasContent b bs) where
    pub sql_is_open-HasContent : sql_is_open api b ≡ true
    unfolding sql_is_open
    sql_is_open-HasContent = ground (arith, h.is_open)

    pub sql_serialize_size-HasContent : sql_serialize_size api b ≡ some (length bs)
    unfolding sql_serialize_size
    sql_serialize_size-HasContent = ground (arith, h.is_open, h.serialized)

    pub sql_serialize-HasContent : sql_serialize api (length bs) b ≡ some (length bs, bs)
    unfolding sql_serialize
    sql_serialize-HasContent = ground (arith, h.is_open, h.serialized, take_all (length bs) bs)

  deserialize_into-HasContent :
      (d : Db) (bs : List ℕ) (b : Bridge api)
      → b.db ≡ some d
      → (deserialize_into api d bs b).0 ≡ 0
      → HasContent (deserialize_into api d bs b).1 bs
  unfolding deserialize_into
  deserialize_into-HasContent d bs b h e = record {
    handle = d;
    is_open = ground (arith, e, h);
    serialized = ground (arith, e, h, serialize-deserialize d bs b.world);
  }

  -- If `sql_deserialize` returns 0, the open database has the serialization that it was given.
  pub deserialize-HasContent :
      (bs : List ℕ) (b : Bridge api)
      → (sql_deserialize api bs b).0 ≡ 0
      → HasContent (sql_deserialize api bs b).1 bs
  unfolding sql_deserialize
  deserialize-HasContent bs b e =
      let c = (sql_close api b).1 in
      let (rc, d, w) = sqlite3_open c.world in
      ground (arith, e, deserialize_into-HasContent d bs (record c { db = some d; world = w }) refl)
