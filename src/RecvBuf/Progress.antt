-- ===== src/RecvBuf/Progress.antt =====
-- `read` of src/connection/stream/recv_buf.rs hands out what there is.
use tquic.Base.{ℕ, ◌+◌, ◌<◌, ◌≡◌, ap, arith, List, [], ◌∷◌, length}
use tquic.Base.{Bool, true, false, none, ◌==◌, inl, inr, ◌⊎◌}
use mathlib.Core.Path.{subst}
use native.Mathlib.Decide.{dec_lt}
use tquic.Error.{ok}
use tquic.RecvBuf.{Entries, RecvBuf, read, read_some, read_chunks, ready}
use tquic.RecvBuf.Chunks.{Chain, held, held-below}
use tquic.RecvBuf.Fill.{IsValid}
use tquic.RecvBuf.Read.{read_chunks-Reads}
use tquic.RecvBuf.Deliver.{read_opened}

held-ready : (s : RecvBuf) → IsValid s → held s.chunks s.read_off ≡ true → ready s ≡ true
unfolding held
held-ready s v h = first s.chunks v.chain h
  where
    first :
        (c : Entries)
        → Chain s.read_off c
        → held c s.read_off ≡ true
        → (elim c [ [] ↦ false | (k, b) ∷ r ↦ b.off == s.read_off ]) ≡ true
    first [] c h = cc
    first ((k, b) ∷ r) c h = ground (arith, held-below k r s.read_off c.4)

-- Where the byte at `read_off` is held and the stream was not reset, `read` into a buffer that is not
-- empty succeeds with at least one byte, and hands out all that it has room for up to the first offset
-- that is not held.
pub read_progress :
    (s : RecvBuf) (room : ℕ)
    → IsValid s
    → s.error ≡ none
    → held s.chunks s.read_off ≡ true
    → 0 < room
    → (bytes : List ℕ) × (fin : Bool) × ((read s room).0 ≡ ok (bytes, fin))
      × (0 < length bytes)
      × ((length bytes ≡ room) ⊎ (held s.chunks (s.read_off + length bytes) ≡ false))
read_progress s room v e h p =
    let w = read_chunks-Reads s.chunks s.read_off room v.chain in
    let same = read_opened s room e (held-ready s v h) in
    let bytes : List ℕ = (read_chunks s.chunks s.read_off room).0 in
    let more : length bytes < room → held s.chunks (s.read_off + length bytes) ≡ false =
      λ q. subst (λ x. held s.chunks x ≡ false) w.moved (w.greedy q) in
    unfold read_some in
    (
      bytes,
      (read_some s room).0.1,
      ap (λ r. r.0) same,
      elim (dec_lt 0 (length bytes)) [
        | yes q ↦ q
        | no q ↦
            let e' : s.read_off + length bytes ≡ s.read_off = omega arith in
            cc (subst (λ x. held s.chunks x ≡ false) e' (more (omega arith)), h)
      ],
      elim (dec_lt (length bytes) room) [
        | yes q ↦ inr (more q)
        | no q ↦ inl (omega (arith, w.fits))
      ],
    )
