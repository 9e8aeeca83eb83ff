-- ===== src/Account/Cycles.antt =====
-- The cycles of a message: the low half of 16 little-endian bytes.
use idris2_ouc.Base.{
  ℕ, suc, ◌+◌, ◌*◌, ◌<◌, ◌^◌, ◌%◌, ◌/◌, ◌≡◌, ◌∙◌, refl, ap, List, [], ◌∷◌, ◌++◌, get_or, arith, All,
}
use idris2_ouc.Word.{IsU64}
use idris2_ouc.Word.Bits.{bit_or-shl}
use idris2_ouc.Word.Bytes.{write_u64, write_u64_loop}
use idris2_ouc.Account.{Account, low64, low64_loop, ouc_donate, ouc_accept_and_donate}

-- One round.
low64_round :
    (n : ℕ) (buf : List ℕ) (v : ℕ)
    → get_or buf n 0 < 256
    → v < 2 ^ 56
    → low64_loop (suc n) buf v ≡ low64_loop n buf (get_or buf n 0 + v * 256)
unfolding low64_loop
low64_round n buf v hb hv =
    ap (low64_loop n buf) (ground (arith, bit_or-shl 8 (get_or buf n 0) v hb))

low64_sum :
    (a b c d e f g h : ℕ) (rest : List ℕ)
    → All (λ x. x < 256) (a ∷ b ∷ c ∷ d ∷ e ∷ f ∷ g ∷ h ∷ [])
    → low64 (a ∷ b ∷ c ∷ d ∷ e ∷ f ∷ g ∷ h ∷ rest)
      ≡ a + b * 2 ^ 8 + c * 2 ^ 16 + d * 2 ^ 24 + e * 2 ^ 32 + f * 2 ^ 40 + g * 2 ^ 48 + h * 2 ^ 56
unfolding low64
low64_sum a b c d e f g h rest (ha, (hb, (hc, (hd, (he, (hf, (hg, (hh, _)))))))) =
    let buf : List ℕ = a ∷ b ∷ c ∷ d ∷ e ∷ f ∷ g ∷ h ∷ rest in
    let upper : low64_loop 8 buf 0 ≡ low64_loop 4 buf (e + f * 2 ^ 8 + g * 2 ^ 16 + h * 2 ^ 24) =
      low64_round 7 buf 0 hh (omega arith)
      ∙ low64_round 6 buf (h + 0 * 256) hg (omega arith)
      ∙ low64_round 5 buf (g + (h + 0 * 256) * 256) hf (omega arith)
      ∙ low64_round 4 buf (f + (g + (h + 0 * 256) * 256) * 256) he (omega arith)
      ∙ ap (low64_loop 4 buf) (omega arith) in
    let u : ℕ = e + f * 2 ^ 8 + g * 2 ^ 16 + h * 2 ^ 24 in
    upper
    ∙ low64_round 3 buf u hd (omega arith)
    ∙ low64_round 2 buf (d + u * 256) hc (omega arith)
    ∙ low64_round 1 buf (c + (d + u * 256) * 256) hb (omega arith)
    ∙ low64_round 0 buf (b + (c + (d + u * 256) * 256) * 256) ha (omega arith)
    ∙ unfold low64_loop in omega arith

pub low64-write_u64 : (v : ℕ) (high : List ℕ) → IsU64 v → low64 (write_u64 v ++ high) ≡ v
unfolding write_u64 write_u64_loop
low64-write_u64 v high h =
    low64_sum (v / 1 % 256) (v / 2 ^ 8 % 256) (v / 2 ^ 16 % 256) (v / 2 ^ 24 % 256)
      (v / 2 ^ 32 % 256) (v / 2 ^ 40 % 256) (v / 2 ^ 48 % 256) (v / 2 ^ 56 % 256) high (omega arith)
    ∙ omega arith

-- With `v` cycles offered and a system that accepts all that it is asked for (below 2^64, as
-- little-endian bytes, anything in the upper half), the call donates `v` to the protocol.
pub accept_and_donate-donate :
    (v : ℕ) (high : List ℕ) (accept : ℕ → List ℕ) (id : List ℕ) (now : ℕ) (s : List Account)
    → IsU64 v
    → accept v ≡ write_u64 v ++ high
    → ouc_accept_and_donate (write_u64 v ++ high) accept id now s ≡ ouc_donate id v now s
unfolding ouc_accept_and_donate
accept_and_donate-donate v high accept id now s h e =
    rw (low64-write_u64 v high h, e, low64-write_u64 v high h) refl
