-- ===== src/EvmLogs/Format.antt =====
-- A log in the format that the comment in lib/ic0/canister_entry.c gives, and where the search finds its
-- fields.
use idris2_ouc.Base.{
  ℕ, ◌≡◌, ◌∙◌, refl, List, [], ◌∷◌, ◌++◌, some, length-append, append_assoc, arith, drop,
}
use idris2_ouc.Word.{IsU64}
use idris2_ouc.EvmLogs.{address_field, topics_field, block_field, find_after, begins, hex_text}
use idris2_ouc.EvmLogs.Fields.{skip_lem, found_lem, misses, misses_plain}
use idris2_ouc.EvmLogs.Plain.{IsPlain, no_l, no_o}
use idris2_ouc.EvmLogs.Objects.{IsFlat, object}

-- A log of a contract: its address, its first topic, its data, its block, and what follows.
pub record Log : Type 0 where
  pub address : List ℕ
  pub topic : List ℕ
  pub payload : List ℕ
  pub block : ℕ
  pub others : List ℕ

pub record IsLog (l : Log) : Type 0 where
  pub address_plain : IsPlain l.address
  pub topic_plain : IsPlain l.topic
  pub payload_plain : IsPlain l.payload
  pub block_fits : IsU64 l.block
  pub others_flat : IsFlat l.others

abbrev pub to_data : List ℕ
to_data = b'"' ∷ b']' ∷ b',' ∷ b'"' ∷ b'd' ∷ b'a' ∷ b't' ∷ b'a' ∷ b'"' ∷ b':' ∷ b'"' ∷ []

abbrev pub separator : List ℕ
separator = b'"' ∷ b',' ∷ b'"' ∷ []

-- What stands behind each field of a log that goes on with `end` behind the block.
abbrev pub at_block : Log → List ℕ → List ℕ
at_block l end = b'0' ∷ b'x' ∷ hex_text l.block ++ (b'"' ∷ end)

abbrev pub at_topics : Log → List ℕ → List ℕ
at_topics l end =
    l.topic ++ (to_data ++ (l.payload ++ (separator ++ (block_field ++ at_block l end))))

abbrev pub at_address : Log → List ℕ → List ℕ
at_address l end = l.address ++ (separator ++ (topics_field ++ at_topics l end))

-- The log between its braces: {"address":"..","topics":[".."],"data":"..","blockNumber":"0x..", and
-- what follows.
unfoldable pub log_body : Log → List ℕ
log_body l = b'"' ∷ address_field ++ at_address l l.others

-- The whole log, that goes on with `end`.
abbrev pub log_text : Log → List ℕ → List ℕ
log_text l end = b'{' ∷ b'"' ∷ address_field ++ at_address l end

pub object-log_body : (l : Log) → object (log_body l) ≡ log_text l (l.others ++ (b'}' ∷ []))
unfolding object log_body
object-log_body l = simp append_assoc

module _ (l : Log) (end : List ℕ) (h : IsLog l) where
  pub find_address : find_after 12 address_field (log_text l end) ≡ some (at_address l end)
  unfolding misses begins
  find_address =
      skip_lem 12 address_field (b'{' ∷ b'"' ∷ []) (address_field ++ at_address l end) refl
      ∙ found_lem 12 b'a' (b'd' ∷ b'd' ∷ b'r' ∷ b'e' ∷ b's' ∷ b's' ∷ b'"' ∷ b':' ∷ b'"' ∷ [])
          (at_address l end)
          (omega (arith, length-append l.address (separator ++ (topics_field ++ at_topics l end))))

  pub find_topics : find_after 12 topics_field (log_text l end) ≡ some (at_topics l end)
  unfolding misses begins
  find_topics =
      skip_lem 12 topics_field (b'{' ∷ b'"' ∷ address_field) (at_address l end) refl
      ∙ skip_lem 12 topics_field l.address (separator ++ (topics_field ++ at_topics l end)) (
          misses_plain b't' b'o' (b'p' ∷ b'i' ∷ b'c' ∷ b's' ∷ b'"' ∷ b':' ∷ b'[' ∷ b'"' ∷ [])
            l.address (b',' ∷ b'"' ∷ topics_field ++ at_topics l end)
            (no_o l.address h.address_plain) (ground arith))
      ∙ skip_lem 12 topics_field separator (topics_field ++ at_topics l end) refl
      ∙ found_lem 12 b't' (b'o' ∷ b'p' ∷ b'i' ∷ b'c' ∷ b's' ∷ b'"' ∷ b':' ∷ b'[' ∷ b'"' ∷ [])
          (at_topics l end)
          (omega (
            arith,
            length-append l.topic
                (to_data ++ (l.payload ++ (separator ++ (block_field ++ at_block l end)))),
          ))

  pub find_block : find_after 15 block_field (log_text l end) ≡ some (at_block l end)
  unfolding misses begins
  find_block =
      skip_lem 15 block_field (b'{' ∷ b'"' ∷ address_field) (at_address l end) refl
      ∙ plain_lem l.address (b',' ∷ b'"' ∷ topics_field ++ at_topics l end) h.address_plain
      ∙ skip_lem 15 block_field (separator ++ topics_field) (at_topics l end) refl
      ∙ plain_lem l.topic
          (drop 1 to_data ++ (l.payload ++ (separator ++ (block_field ++ at_block l end))))
          h.topic_plain
      ∙ skip_lem 15 block_field to_data
          (l.payload ++ (separator ++ (block_field ++ at_block l end))) refl
      ∙ plain_lem l.payload (b',' ∷ b'"' ∷ block_field ++ at_block l end) h.payload_plain
      ∙ skip_lem 15 block_field separator (block_field ++ at_block l end) refl
      ∙ found_lem 15 b'b'
          (b'l' ∷ b'o' ∷ b'c' ∷ b'k' ∷ b'N' ∷ b'u' ∷ b'm' ∷ b'b' ∷ b'e' ∷ b'r' ∷ b'"' ∷ b':' ∷ b'"'
            ∷ [])
          (at_block l end) (omega (arith, length-append (hex_text l.block) (b'"' ∷ end)))
    where
      plain_lem :
          (xs bs : List ℕ)
          → IsPlain xs
          → find_after 15 block_field (xs ++ (b'"' ∷ bs)) ≡ find_after 15 block_field (b'"' ∷ bs)
      plain_lem xs bs p = skip_lem 15 block_field xs (b'"' ∷ bs) (
          misses_plain b'b' b'l'
            (b'o' ∷ b'c' ∷ b'k' ∷ b'N' ∷ b'u' ∷ b'm' ∷ b'b' ∷ b'e' ∷ b'r' ∷ b'"' ∷ b':' ∷ b'"' ∷ [])
            xs bs (no_l xs p) (ground arith))
