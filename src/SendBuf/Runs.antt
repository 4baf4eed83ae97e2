-- ===== src/SendBuf/Runs.antt =====
-- Runs of src/connection/stream/send_buf.rs, and its theorems at concrete buffers.
use tquic.Base.{◌+◌, ◌&&◌, ◌||◌, not, length, arith}
use tquic.Ranges.Order.{covers, inside}
use tquic.Ranges.Insert.{IsValid}
use tquic.SendBuf.{reset}
use tquic.SendBuf.Write.{Wrote, write-Wrote}
use tquic.SendBuf.Retransmit.{retransmit-covers}
use tquic.SendBuf.Poll.{IsSound, Polled, poll_transmit-Polled}
use tquic.SendBuf.Fetch.{At}
use tquic.SendBuf.Round.{IsReadable}
use tquic.SendBuf.Read.{ReadOut, read-ReadOut}
use tquic.SendBuf.Drop.{IsLive, Dropped, ack_and_drop-Dropped}
use tquic.SendBuf.Reset.{IsAcked, Reset, reset-Reset}
use tquic.Base.{ℕ, ◌≡◌, refl, List, [], ◌∷◌, Bool, true, false, Option, none, some}
use tquic.Error.{Result, ok, err, panic}
use tquic.Ranges.Map.{bt_insert, bt_remove, prev_to, next_to, next_after}
use tquic.Ranges.{
  insert, insert_next, insert_from, place, absorb, remove, remove_next, cut_prev, carve, is_empty,
  min, pop_min, peek_min,
}
use tquic.SendBuf.{
  send_off, fin_at, SendBuf, new, write, capacity, write_within, write_fitting, push_chunks, read,
  read_loop, read_whole, read_range, read_from, poll_transmit, poll_by, poll_lost, poll_new,
  retransmit, trim_acked, trim_step, ack_off, ack, ack_and_drop, drop_acked, drop_front,
}

abbrev get : Result (ℕ × SendBuf) → SendBuf
get (ok (n, s)) = s
get (err e) = new 0
get panic = new 0

abbrev got : Result SendBuf → SendBuf
got (ok s) = s
got (err e) = new 0
got panic = new 0

abbrev out : Option ((List ℕ × Bool) × SendBuf) → (List ℕ × Bool) × SendBuf
out none = (([], false), new 0)
out (some p) = p

-- Nine bytes in chunks of four.
abbrev nine : SendBuf
nine = get (write 4 (new 20) (1 ∷ 2 ∷ 3 ∷ 4 ∷ 5 ∷ 6 ∷ 7 ∷ 8 ∷ 9 ∷ []) true)

-- Seven of them sent, the second and third lost and the first acknowledged.
abbrev lossy : SendBuf
lossy = got (ack_and_drop (retransmit (out (read nine 7)).1 1 2) 0 1)

reads_on : (out (read lossy 9)).0 ≡ (2 ∷ 3 ∷ [], false)
unfolding write capacity write_within write_fitting push_chunks read read_loop read_whole read_range
    read_from poll_transmit poll_by poll_lost poll_new retransmit trim_acked trim_step ack_off ack
    ack_and_drop drop_acked drop_front insert insert_next insert_from place absorb remove
    remove_next cut_prev carve is_empty min pop_min peek_min bt_insert bt_remove prev_to next_to
    next_after
reads_on = refl

reads_last : (out (read (out (read lossy 9)).1 9)).0 ≡ (8 ∷ 9 ∷ [], true)
unfolding write capacity write_within write_fitting push_chunks read read_loop read_whole read_range
    read_from poll_transmit poll_by poll_lost poll_new retransmit trim_acked trim_step ack_off ack
    ack_and_drop drop_acked drop_front insert insert_next insert_from place absorb remove
    remove_next cut_prev carve is_empty min pop_min peek_min bt_insert bt_remove prev_to next_to
    next_after
reads_last = refl

abbrev five : List ℕ
five = 1 ∷ 2 ∷ 3 ∷ 4 ∷ 5 ∷ []

write-Wrote_example :
    (n : ℕ) × (t : SendBuf) × (write 2 (new 4) five true ≡ ok (n, t)) × Wrote (new 4) t five true n
write-Wrote_example =
    write-Wrote 2 (new 4) five true (omega arith) refl refl (omega arith) (omega arith)
      (omega arith) (omega arith)

-- All three bytes written, with the fin flag.
abbrev finished : SendBuf
finished = record (new 4) { write_off = 3; fin_off = some 3 }

-- Six bytes in two chunks: two lost, of which the second is acknowledged, and one not sent.
abbrev six : SendBuf
six = record (new 20) {
  chunks =
      record { bytes = 1 ∷ 2 ∷ 3 ∷ 4 ∷ []; off = 0; fin = false }
      ∷ record { bytes = 5 ∷ 6 ∷ []; off = 4; fin = false }
      ∷ [];
  write_off = 6;
  unsent_off = 5;
  unacked_len = 6;
  acked = record { set = (2, 3) ∷ []; capacity = 9 };
  retransmits = record { set = (0, 2) ∷ []; capacity = 9 };
}

retransmit-covers_example :
    IsValid (retransmit six 1 3).retransmits
    × (covers (retransmit six 1 3).retransmits.set 3
        ≡ (covers six.retransmits.set 3 || (inside 1 4 3 && not (covers six.acked.set 3))))
retransmit-covers_example =
    retransmit-covers six 1 3 3 refl (omega arith) (omega arith) (omega arith) (omega arith)

six-IsSound : IsSound six
unfolding covers
six-IsSound = record {
  lost = omega arith;
  room = omega arith;
  below = λ k h. ground arith;
  sent = omega arith;
  small = omega arith;
}

poll_transmit-Polled_example : let (r, t) = poll_transmit six 1 in Polled six t r.0 r.1 1
poll_transmit-Polled_example = poll_transmit-Polled six 1 six-IsSound

six-IsLive : IsLive six
unfolding covers ack_off
six-IsLive = record {
  some_data = refl;
  acks = omega arith;
  room = omega arith;
  lost = omega arith;
  sent = λ k h. ground arith;
  joined = omega arith;
  unacked = refl;
  small = omega arith;
}

ack_and_drop-Dropped_example : (t : SendBuf) × (ack_and_drop six 0 5 ≡ ok t) × Dropped six t 0 5
ack_and_drop-Dropped_example = ack_and_drop-Dropped six 0 5 six-IsLive (omega arith)

six-IsAcked : IsAcked six
unfolding covers
six-IsAcked = record {
  valid = omega arith;
  room = omega arith;
  sent = λ k h. ground arith;
  written = omega arith;
  small = omega arith;
}

reset-Reset_example : Reset six (reset six).1 (reset six).0.0 (reset six).0.1
reset-Reset_example = reset-Reset six six-IsAcked

six-At : At six 0 (send_off six)
six-At = record { joined = omega arith; passed = tt; below = omega arith; small = omega arith }

six-IsReadable : IsReadable six 0
six-IsReadable = record { sound = six-IsSound; queue = six-At; kept = λ k h. omega arith }

read-ReadOut_example :
    (t : SendBuf) × (bytes : List ℕ) × (read six 2
      ≡ some ((bytes, fin_at six.fin_off (send_off six + length bytes)), t))
    × ReadOut six t 0 2 (send_off six) bytes
read-ReadOut_example = read-ReadOut six 0 2 six-IsReadable
