-- ===== src/RecvBuf/Queue.antt =====
-- The queue of `write` of src/connection/stream/recv_buf.rs is run to its end.
use tquic.Base.{
  ℕ, zero, suc, ◌-◌, ◌≤◌, ◌<◌, ◌^◌, ◌≡◌, refl, ap, ◌∙◌, arith, List, [], ◌∷◌, length, max,
}
use tquic.Base.{ltb, leb, Bool, true, false, ◌&&◌, ◌||◌, none, if◌then◌else◌, ◌⊎◌, inl, inr}
use tquic.Base.{lt→ltb, le→ltb}
use native.Mathlib.Decide.{dec_lt}
use tquic.Error.{Result, ok}
use tquic.RangeBuf.{RangeBuf, len, advance}
use tquic.RecvBuf.{Entries, RecvBuf, Scan, gone, kept, scan_from, store, write_loop, skip_read}
use tquic.RecvBuf.Chunks.{between, held, buf_at, byte_at, same_choice}
use tquic.RecvBuf.Overlap.{end, IsPart, ahead, Later, Kept, Scanned, advance-off, advance-IsPart}
use tquic.RecvBuf.Fill.{
  IsValid, Filled, added, store_kept, scan_from-Scanned, all-Filled, some-Filled, gone-Filled,
  added-IsValid, ahead-bt_insert,
}

-- What follows a scan.
abbrev run_on : ℕ → RecvBuf → Scan → Result RecvBuf
run_on fuel s z = let stored = store s z in write_loop fuel stored.0 stored.1

ran_none : (fuel : ℕ) (s : RecvBuf) → write_loop fuel s [] ≡ ok s
unfolding write_loop
ran_none zero s = refl
ran_none (suc fuel) s = refl

ran_gone :
    (fuel : ℕ) (s : RecvBuf) (tmp : List RangeBuf) → tmp ≡ [] → run_on fuel s (gone tmp) ≡ ok s
unfolding store
ran_gone fuel s tmp e = ap (write_loop fuel s) e ∙ ran_none fuel s

ran_kept :
    (fuel : ℕ) (s : RecvBuf)
    → IsValid s
    → s.shutdown ≡ false
    → (p : RangeBuf) (tmp : List RangeBuf) → end p < 2 ^ 63
    → run_on fuel s (kept p tmp) ≡ write_loop fuel (added s p) tmp
ran_kept fuel s v o p tmp w = rw (store_kept s v o p tmp w) refl

-- From a buffer behind `read_off`, the queue is run to its end.
write_loop-Filled :
    (fuel : ℕ) (s : RecvBuf) (buf : RangeBuf)
    → IsValid s
    → s.shutdown ≡ false
    → s.read_off ≤ buf.off
    → end buf < 2 ^ 63
    → ahead s.chunks buf.off < fuel
    → (t : RecvBuf) × (write_loop fuel s (buf ∷ []) ≡ ok t) × Filled s t buf
unfolding write_loop skip_read
write_loop-Filled zero s buf v o b w f = absurd (omega arith)
write_loop-Filled (suc fuel) s buf v o b w f =
    let skip : ltb buf.off s.read_off ≡ false = le→ltb buf.off s.read_off b in
    rw skip (
      by_scan (scan_from s buf []) (scan_from-Scanned s buf v w) (λ p q u l.
        write_loop-Filled fuel (added s p) q (added-IsValid s v o buf w b p u) o
          (omega (arith, l.part.after)) (omega (arith, l.reaches))
          (omega (
            arith,
            l.closer,
            l.joins,
            ahead-bt_insert s.chunks (end p) q.off p (omega (arith, l.joins)),
          ))))
  where
    by_scan :
        (z : Scan)
        → Scanned s.chunks buf [] z
        → ((p q : RangeBuf)
            → Kept s.chunks buf p
            → Later s.chunks buf p q
            → (t : RecvBuf) × (write_loop fuel (added s p) (q ∷ []) ≡ ok t)
              × Filled (added s p) t q)
        → (t : RecvBuf) × (run_on fuel s z ≡ ok t) × Filled s t buf
    by_scan (gone tmp) (e, m, h) ih = (s, ran_gone fuel s tmp e, gone-Filled s v o buf w b m h)
    by_scan (kept p tmp) (u, inl (e, all)) ih = (
      added s p,
      ran_kept fuel s v o p tmp (omega (arith, u.part.before))
          ∙ ap (write_loop fuel (added s p)) e
          ∙ ran_none fuel (added s p),
      all-Filled s v o buf w b p u all,
    )
    by_scan (kept p tmp) (u, inr (q, e, l)) ih =
        let (t, ran, f) = ih p q u l in
        (
          t,
          ran_kept fuel s v o p tmp (omega (arith, u.part.before))
              ∙ ap (write_loop fuel (added s p)) e
              ∙ ran,
          some-Filled s v o buf w b p u q t l f,
        )

-- The unread offsets of a buffer.
abbrev pub unread : RecvBuf → RangeBuf → ℕ → Bool
unread s b x = leb s.read_off x && between b.off (end b) x

-- What `write` of the buffer `b` makes of `s`.
pub record Wrote (s t : RecvBuf) (b : RangeBuf) : Type 0 where
  pub valid : IsValid t
  pub holds : (x : ℕ) → held t.chunks x ≡ (held s.chunks x || unread s b x)
  pub bytes :
      (x : ℕ)
      → byte_at t.chunks x ≡ (
          if held s.chunks x then byte_at s.chunks x else if unread s b x then buf_at b x else none)
  pub extent : t.recv_off ≡ max s.recv_off (end b)
  pub rest : t ≡ record s { chunks = t.chunks; recv_off = t.recv_off }

ahead-le : (s : Entries) (o : ℕ) → ahead s o ≤ length s
unfolding ahead
ahead-le [] o = omega arith
ahead-le ((k, b) ∷ r) o = ground (arith, ahead-le r o)

module _ (s : RecvBuf) (b : RangeBuf) (v : IsValid s) (o : s.shutdown ≡ false)
    (w : end b < 2 ^ 63) where
  ahead_Wrote :
      s.read_off ≤ b.off
      → (t : RecvBuf) × (write_loop (suc (length s.chunks)) s (b ∷ []) ≡ ok t) × Wrote s t b
  ahead_Wrote h =
      let (t, ran, f) =
        write_loop-Filled (suc (length s.chunks)) s b v o h w
          (omega (arith, ahead-le s.chunks b.off)) in
      (
        t,
        ran,
        record {
          valid = f.valid;
          holds = λ x. ground (arith, f.holds x);
          bytes = λ x.
              let e : unread s b x ≡ between b.off (end b) x = ground arith in rw e (f.bytes x);
          extent = f.extent;
          rest = f.rest;
        },
      )

  -- The part that was read already is skipped first.
  module _ (h : b.off < s.read_off) (g : s.read_off ≤ end b) where
    abbrev unskipped : RangeBuf
    unskipped = advance b (s.read_off - b.off)

    at_read : (unskipped.off ≡ s.read_off) × (end unskipped ≡ end b)
    at_read = let e = advance-off b (s.read_off - b.off) (omega arith) w in (omega (arith, e), e.1)

    skips : (fuel : ℕ) → write_loop (suc fuel) s (b ∷ []) ≡ write_loop (suc fuel) s (unskipped ∷ [])
    unfolding write_loop skip_read
    skips fuel =
        let e : ltb b.off s.read_off ≡ true = lt→ltb b.off s.read_off h in
        let f : ltb (len b) (s.read_off - b.off) ≡ false =
          le→ltb (len b) (s.read_off - b.off) (omega arith) in
        let g' : ltb unskipped.off s.read_off ≡ false =
          le→ltb unskipped.off s.read_off (omega (arith, at_read)) in
        rw (e, f, g') refl

    behind_Wrote :
        (t : RecvBuf) × (write_loop (suc (length s.chunks)) s (b ∷ []) ≡ ok t) × Wrote s t b
    behind_Wrote =
        let part : IsPart b unskipped = advance-IsPart b (s.read_off - b.off) (omega arith) w in
        let (t, ran, f) =
          write_loop-Filled (suc (length s.chunks)) s unskipped v o (omega (arith, at_read))
            (omega (arith, at_read)) (omega (arith, ahead-le s.chunks unskipped.off)) in
        (
          t,
          skips (length s.chunks) ∙ ran,
          record {
            valid = f.valid;
            holds = λ x. ground (arith, f.holds x, at_read);
            bytes = λ x.
                f.bytes x
                ∙ ap (λ z. if held s.chunks x then byte_at s.chunks x else z)
                    (same_choice (between unskipped.off (end unskipped) x) (unread s b x) _ _ none
                      (ground (arith, at_read))
                      (λ i. part.bytes x (ground (arith, at_read)) (ground (arith, at_read))));
            extent = omega (arith, f.extent, at_read);
            rest = f.rest;
          },
        )

  -- The queue begun with `b`, unless `b` is empty and was passed by.
  pub queue_Wrote :
      (s.read_off ≤ b.off) ⊎ (s.read_off ≤ end b)
      → (t : RecvBuf) × (write_loop (suc (length s.chunks)) s (b ∷ []) ≡ ok t) × Wrote s t b
  queue_Wrote (inl h) = ahead_Wrote h
  queue_Wrote (inr h) = elim (dec_lt b.off s.read_off) [
    | yes p ↦ behind_Wrote p h
    | no p ↦ ahead_Wrote (omega arith)
  ]
