-- ===== src/SendBuf/Round.antt =====
-- One round of `read` of src/connection/stream/send_buf.rs: the next range is polled and collected.
use tquic.Base.{
  ℕ, ◌+◌, ◌-◌, ◌≤◌, ◌<◌, ◌≡◌, refl, ap, sym, ◌∙◌, true, false, ◌&&◌, ◌||◌, arith, Option, some,
  none,
}
use tquic.Base.{[], ◌∷◌, take, drop, Bool}
use mathlib.Core.Path.{subst}
use native.Mathlib.Decide.{dec_lt}
use tquic.Ranges as R
use tquic.Ranges.{RangeSet, insert}
use tquic.Ranges.Map.{Entries}
use tquic.Ranges.Order.{IsSorted, inside, covers, covers-below}
use tquic.SendBuf.{SendBuf, send_off, poll_transmit, poll_by, poll_new, poll_lost, read_whole}
use tquic.SendBuf.Push.{content}
use tquic.SendBuf.Poll.{IsSound, Polled, pending, poll_transmit-Polled}
use tquic.SendBuf.Fetch.{At, Passed-le, from_off, read_whole-Found}

-- A sound state whose queue begins at `base`, with the position at the next offset to send.
pub record IsReadable (s : SendBuf) (base : ℕ) : Type 0 where
  pub sound : IsSound s
  pub queue : At s base (send_off s)
  pub kept : (k : ℕ) → pending s k ≡ true → base ≤ k

send_off_none : (s : SendBuf) → s.retransmits.set ≡ [] → send_off s ≡ s.unsent_off
unfolding R.min
send_off_none s e = rw e refl

send_off_some :
    (s : SendBuf) (a b : ℕ) (r : Entries) → s.retransmits.set ≡ (a, b) ∷ r → send_off s ≡ a
unfolding R.min
send_off_some s a b r e = rw e refl

-- `send_off` is the least offset that is left to send, if there is one.
module _ (s : SendBuf) (v : IsSound s) where
  send_off-pending : send_off s < s.write_off → pending s (send_off s) ≡ true
  unfolding covers
  send_off-pending h = least s.retransmits.set refl
    where
      least : (t : Entries) → s.retransmits.set ≡ t → pending s (send_off s) ≡ true
      least [] e =
          let o = send_off_none s e in subst (λ k. pending s k ≡ true) (sym o) (ground (arith, o))
      least ((a, b) ∷ r) e =
          let c : covers s.retransmits.set a ≡ covers ((a, b) ∷ r) a = ap (λ z. covers z a) e in
          let w : IsSorted 0 ((a, b) ∷ r) = subst (IsSorted 0) e v.lost in
          subst (λ k. pending s k ≡ true) (sym (send_off_some s a b r e)) (ground (arith, c, w))

  send_off-least : (k : ℕ) → pending s k ≡ true → send_off s ≤ k
  unfolding covers
  send_off-least k h = least s.retransmits.set refl
    where
      least : (t : Entries) → s.retransmits.set ≡ t → send_off s ≤ k
      least [] e =
          let c : covers s.retransmits.set k ≡ false = ap (λ z. covers z k) e in
          ground (arith, c, send_off_none s e)
      least ((a, b) ∷ r) e =
          let c : covers s.retransmits.set k ≡ covers ((a, b) ∷ r) k = ap (λ z. covers z k) e in
          let w : IsSorted 0 ((a, b) ∷ r) = subst (IsSorted 0) e v.lost in
          let d : covers s.retransmits.set a ≡ covers ((a, b) ∷ r) a = ap (λ z. covers z a) e in
          ground (
            arith,
            c,
            w,
            d,
            covers-below (b + 1) r k w.2,
            send_off_some s a b r e,
            v.below a,
            v.below k,
          )

-- A poll changes only what is to be sent again and `unsent_off`.
poll_transmit-same :
    (s : SendBuf) (n : ℕ)
    → let t = (poll_transmit s n).1 in
      t ≡ record s { retransmits = t.retransmits; unsent_off = t.unsent_off }
unfolding poll_transmit poll_by poll_new poll_lost
poll_transmit-same s n = by (R.pop_min s.retransmits).0 (R.pop_min s.retransmits).1
  where
    by :
        (o : Option (ℕ × ℕ)) (others : RangeSet)
        → let t = (poll_by s o others n).1 in
          t ≡ record s { retransmits = t.retransmits; unsent_off = t.unsent_off }
    by none others = refl
    by (some (a, b)) others = refl

same_rest :
    (s u t : SendBuf)
    → t ≡ record u { pos = t.pos }
    → u ≡ record s { retransmits = u.retransmits; unsent_off = u.unsent_off }
    → t ≡ record s { pos = t.pos; retransmits = t.retransmits; unsent_off = t.unsent_off }
same_rest s u t e f =
    e
    ∙ ap (λ (z : SendBuf). record z { pos = t.pos }) f
    ∙ ap
        (λ (z : SendBuf). record s {
          pos = t.pos;
          retransmits = z.retransmits;
          unsent_off = z.unsent_off;
        })
        (sym e)

ground_taken : (i p q : Bool) → p ≡ (i || q) → q ≡ true → p ≡ true
ground_taken i p q e h = ground arith

not_inside : (x y k : ℕ) (q : Bool) → (inside x y k && q) ≡ false → q ≡ true → x ≤ k → y ≤ k
not_inside x y k q e h l = ground arith

-- One round of `read`: the range is polled and collected.
pub record Round (s t : SendBuf) (base y room : ℕ) : Type 0 where
  pub readable : IsReadable t base
  pub ahead : send_off s < y
  pub fits : y ≤ send_off s + room
  pub passed : y ≤ send_off t
  pub same : t ≡ record s { pos = t.pos; retransmits = t.retransmits; unsent_off = t.unsent_off }

module _ (s : SendBuf) (base room : ℕ) (v : IsReadable s base) (h : 0 < room)
    (k : send_off s < s.write_off) where
  abbrev pub t0 : SendBuf
  t0 = (poll_transmit s room).1

  abbrev pub upto : ℕ
  upto = (poll_transmit s room).0.1

  pub starts : (poll_transmit s room).0.0 ≡ send_off s
  starts = (poll_transmit-Polled s room v.sound).lowest

  polled : Polled s t0 (send_off s) upto room
  polled = subst (λ x. Polled s t0 x upto room) starts (poll_transmit-Polled s room v.sound)

  same_write : t0.write_off ≡ s.write_off
  same_write = ap (λ (z : SendBuf). z.write_off) (poll_transmit-same s room)

  same_chunks : t0.chunks ≡ s.chunks
  same_chunks = ap (λ (z : SendBuf). z.chunks) (poll_transmit-same s room)

  same_pos : t0.pos ≡ s.pos
  same_pos = ap (λ (z : SendBuf). z.pos) (poll_transmit-same s room)

  pub upto-le : (send_off s < upto) × (upto ≤ s.write_off)
  upto-le =
      let m : send_off s < upto = polled.moves h k in
      (m, ground (arith, polled.taken (upto - 1), v.sound.below (upto - 1), v.sound.sent, m))

  onward : upto ≤ send_off t0
  onward = elim (dec_lt (send_off t0) t0.write_off) [
    | yes q ↦
        let a : pending t0 (send_off t0) ≡ true = send_off-pending t0 polled.sound q in
        let b : pending s (send_off t0) ≡ true =
          ground_taken (inside (send_off s) upto (send_off t0)) _ _ (polled.taken (send_off t0))
            a in
        let c : send_off s ≤ send_off t0 = send_off-least s v.sound (send_off t0) b in
        not_inside (send_off s) upto (send_off t0) _ (polled.once (send_off t0)) a c
    | no q ↦ omega (arith, upto-le, same_write)
  ]

  queue0 : At t0 base (send_off s)
  queue0 = record {
    joined = rw (same_chunks, same_write) v.queue.joined;
    passed = rw (same_chunks, same_pos) v.queue.passed;
    below = v.queue.below;
    small = rw same_write v.queue.small;
  }

  pub round-Round :
      (t : SendBuf) × (read_whole (upto - send_off s) t0 (send_off s) upto
        ≡ some (take (upto - send_off s) (from_off s base (send_off s)), t))
      × Round s t base upto room
  round-Round =
      let (t, ran, at, e) =
        read_whole-Found (upto - send_off s) t0 base (send_off s) upto queue0
          (omega (arith, upto-le)) (omega (arith, upto-le, same_write)) (omega arith) in
      let o : send_off t ≡ send_off t0 = ap (λ (z : SendBuf). send_off z) e in
      let sound' : IsSound (record t0 { pos = t.pos }) = record {
        lost = polled.sound.lost;
        room = polled.sound.room;
        below = polled.sound.below;
        sent = polled.sound.sent;
        small = polled.sound.small;
      } in
      let pend : (x : ℕ) → pending t x ≡ pending t0 x = λ x. ap (λ (z : SendBuf). pending z x) e in
      (
        t,
        ran
            ∙ ap (λ z. some (take (upto - send_off s) (drop (send_off s - base) (content z)), t))
                same_chunks,
        record {
          readable = record {
            sound = subst IsSound (sym e) sound';
            queue = record {
              joined = at.joined;
              passed =
                  Passed-le t.pos t.chunks upto (send_off t) (omega (arith, o, onward)) at.passed;
              below = omega (arith, at.below, o, onward);
              small = at.small;
            };
            kept = λ x q.
                v.kept x (
                  ground_taken (inside (send_off s) upto x) _ _ (polled.taken x)
                    (sym (pend x) ∙ q));
          };
          ahead = upto-le.0;
          fits = polled.bounded;
          passed = omega (arith, o, onward);
          same = same_rest s t0 t e (poll_transmit-same s room);
        },
      )
