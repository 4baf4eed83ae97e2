-- ===== src/SendBuf/Reset.antt =====
-- `reset`, `stop` and `shutdown` of src/connection/stream/send_buf.rs.
use tquic.Base.{ℕ, ◌+◌, ◌-◌, ◌≤◌, ◌<◌, ◌^◌, ◌≡◌, refl, Bool, true, arith}
use tquic.Base.{List, [], ◌∷◌, length, ltb, none, some, add64}
use native.Mathlib.Decide.{dec_lt}
use tquic.Error.{ok, err, done, stream_stopped}
use tquic.Ranges.{insert}
use tquic.Ranges.Map.{Entries}
use tquic.Ranges.Order.{IsSorted, covers, covers-below}
use tquic.Ranges.Insert.{IsValid, insert-Added}
use tquic.SendBuf.{SendBuf, reset, stop_sending, ack, is_complete, write, capacity}

-- A sorted set of entries that covers exactly the numbers below `u` is one entry.
one_entry :
    (acked : Entries) (u : ℕ)
    → IsSorted 0 acked
    → 0 < u
    → ((k : ℕ) → covers acked k ≡ ltb k u)
    → acked ≡ (0, u) ∷ []
unfolding covers
one_entry [] u v h all = absurd (ground (arith, all 0))
one_entry ((a, b) ∷ []) u v h all =
    let x : a ≡ 0 = ground (arith, all 0) in
    let y : b ≡ u = ground (arith, all (b - 1), all b, v) in rw (x, y) refl
one_entry ((a, b) ∷ (c, d) ∷ r) u v h all =
    absurd (ground (arith, all c, all b, covers-below (d + 1) r b v.2.2, v))

-- Only what was sent is acknowledged.
pub record IsAcked (s : SendBuf) : Type 0 where
  pub valid : IsValid s.acked
  pub room : length s.acked.set < s.acked.capacity
  pub sent : (k : ℕ) → covers s.acked.set k ≡ true → k < s.unsent_off
  pub written : s.unsent_off ≤ s.write_off
  pub small : s.write_off < 2 ^ 64

-- What `reset` promises.
pub record Reset (s t : SendBuf) (final unsent : ℕ) : Type 0 where
  pub sent : final ≡ s.unsent_off
  pub total : final + unsent ≡ s.write_off
  pub cut : t.write_off ≡ final
  pub final_size : t.fin_off ≡ some final
  pub emptied : t.chunks ≡ []
  pub complete : is_complete t ≡ true

-- With acknowledgements of sent data only, `reset` ends the stream at what was sent: the final offset
-- is the end of what was sent, and with the unsent bytes sums up to what was written, the queue is
-- empty, and the stream is complete.
pub reset-Reset : (s : SendBuf) → IsAcked s → Reset s (reset s).1 (reset s).0.0 (reset s).0.1
unfolding reset ack is_complete
reset-Reset s v = record {
  sent = refl;
  total = omega (arith, v.written);
  cut = refl;
  final_size = refl;
  emptied = refl;
  complete = elim (dec_lt 0 s.unsent_off) [
    | yes h ↦
        let e : add64 0 s.unsent_off ≡ s.unsent_off = omega (arith, v.written, v.small) in
        let w = insert-Added s.acked 0 s.unsent_off v.valid in
        let one =
          one_entry (insert s.acked 0 s.unsent_off).set s.unsent_off w.sorted h
            (λ k. ground (arith, w.exact k v.room, v.sent k)) in
        rw (e, one) (ground arith)
    | no h ↦ ground arith
  ];
}

-- A STOP_SENDING with code `c` is obeyed once: the stream is reset and the code kept; afterwards every
-- `write` answers with that code, and another STOP_SENDING is answered with Done.
pub stop_sending-once :
    (s : SendBuf) (c c' size : ℕ) (input : List ℕ) (fin : Bool)
    → s.error ≡ none
    → let t = record (reset s).1 { error = some c } in
      (stop_sending s c ≡ ok ((reset s).0, t))
      × (write size t input fin ≡ err (stream_stopped c))
      × (stop_sending t c' ≡ err done)
unfolding stop_sending write capacity
stop_sending-once s c c' size input fin e = (rw e refl, refl, refl)
