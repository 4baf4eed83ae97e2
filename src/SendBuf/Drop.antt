-- ===== src/SendBuf/Drop.antt =====
-- `ack_and_drop` of src/connection/stream/send_buf.rs: the acknowledged front of the queue goes.
use tquic.Base.{ℕ, ◌+◌, ◌-◌, ◌≤◌, ◌<◌, ◌^◌, ◌≡◌, refl, true, false, ◌||◌, arith, ap, sym, ◌∙◌}
use tquic.Base.{not, ◌&&◌, [], ◌∷◌, length, drop, ◌==◌, ltb, if◌then◌else◌, add64, sub64}
use tquic.Base.{lt→ltb, le→ltb}
use mathlib.Core.Path.{subst}
use native.Mathlib.Decide.{dec_lt}
use tquic.Error.{ok}
use tquic.Ranges.{insert, remove}
use tquic.Ranges.Map.{Entries}
use tquic.Ranges.Order.{IsSorted, inside, covers, covers-below}
use tquic.Ranges.Remove.{Removed, remove-Removed}
use tquic.Ranges.Insert.{IsValid, Added, insert-Added}
use tquic.SendBuf.{SendBuf, ack_and_drop, drop_acked, ack, ack_off, is_none}
use tquic.SendBuf.Push.{content, Joined}
use tquic.SendBuf.Retransmit.{ack_off-covers}
use tquic.SendBuf.Front.{drop_front-Front}

-- Nothing is acknowledged at `ack_off` itself.
ack_off-free : (s : SendBuf) → IsValid s.acked → covers s.acked.set (ack_off s) ≡ false
unfolding ack_off covers
ack_off-free s v = free s.acked.set v
  where
    free :
        (acked : Entries)
        → IsSorted 0 acked
        → covers acked (elim acked [ [] ↦ 0 | (a, b) ∷ r ↦ if a == 0 then b else 0 ]) ≡ false
    free [] w = refl
    free ((a, b) ∷ r) w = ground (arith, covers-below (b + 1) r b w.2, covers-below (b + 1) r 0 w.2)

-- A queue that is not empty, and begins at `ack_off`.
pub record IsLive (s : SendBuf) : Type 0 where
  pub some_data : is_none s.chunks ≡ false
  pub acks : IsValid s.acked
  pub room : length s.acked.set < s.acked.capacity
  pub lost : IsValid s.retransmits
  pub sent : (k : ℕ) → covers s.acked.set k ≡ true → k < s.write_off
  pub joined : Joined (ack_off s) s.chunks s.write_off
  pub unacked : ack_off s + s.unacked_len ≡ s.write_off
  pub small : s.write_off < 2 ^ 64

-- The state behind the change of the ranges.
abbrev acked_by : SendBuf → ℕ → ℕ → SendBuf
acked_by s off n = record s {
  acked = insert s.acked off (add64 off n);
  retransmits = remove s.retransmits off (add64 off n);
}

module _ (s : SendBuf) (off n : ℕ) (v : IsLive s) (h : off + n ≤ s.write_off) where
  added : Added s.acked.capacity s.acked.set (acked_by s off n).acked.set off (off + n)
  added =
      let e : add64 off n ≡ off + n = omega (arith, v.small) in
      rw e (insert-Added s.acked off (off + n) v.acks)

  queue :
      IsValid (acked_by s off n).retransmits
      × ((k : ℕ)
          → covers (acked_by s off n).retransmits.set k
            ≡ (covers s.retransmits.set k && not (inside off (off + n) k)))
  queue =
      let e : add64 off n ≡ off + n = omega (arith, v.small) in
      let w : Removed s.retransmits.set (remove s.retransmits off (add64 off n)).set off (off + n) =
        rw e (remove-Removed s.retransmits off (off + n) v.lost) in
      (w.sorted, w.exact)

  grown : ack_off s ≤ ack_off (acked_by s off n)
  grown = ground (
    arith,
    ack_off-covers s (ack_off (acked_by s off n)),
    added.exact (ack_off (acked_by s off n)) v.room,
    ack_off-free (acked_by s off n) added.sorted,
  )

  bounded : ack_off (acked_by s off n) ≤ s.write_off
  bounded = ground (
    arith,
    ack_off-covers (acked_by s off n) s.write_off,
    added.exact s.write_off v.room,
    v.sent s.write_off,
  )

  stays : ack_off (acked_by s off n) < off → ack_off (acked_by s off n) ≡ ack_off s
  stays p = ground (
    arith,
    grown,
    ack_off-covers (acked_by s off n) (ack_off s),
    added.exact (ack_off s) v.room,
    ack_off-free s v.acks,
  )

-- What `ack_and_drop` promises of the state `t` that it leaves.
pub record Dropped (s t : SendBuf) (off n : ℕ) : Type 0 where
  pub acks : IsValid t.acked
  pub covered : (k : ℕ) → covers t.acked.set k ≡ (inside off (off + n) k || covers s.acked.set k)
  pub queued :
      IsValid t.retransmits
      × ((k : ℕ)
          → covers t.retransmits.set k
            ≡ (covers s.retransmits.set k && not (inside off (off + n) k)))
  pub grows : ack_off s ≤ ack_off t
  pub bytes : content t.chunks ≡ drop (ack_off t - ack_off s) (content s.chunks)
  pub joined : Joined (ack_off t) t.chunks t.write_off
  pub unacked : ack_off t + t.unacked_len ≡ t.write_off
  pub extent : t.write_off ≡ s.write_off

module _ (s : SendBuf) (off n : ℕ) (v : IsLive s) (h : off + n ≤ s.write_off) where
  early : ack_off (acked_by s off n) < off → ack_and_drop s off n ≡ ok (acked_by s off n)
  unfolding ack_and_drop ack
  early p =
      let e : ltb (ack_off (acked_by s off n)) off ≡ true =
        lt→ltb (ack_off (acked_by s off n)) off p in
      rw (v.some_data, e) refl

  early-Dropped : ack_off (acked_by s off n) < off → Dropped s (acked_by s off n) off n
  early-Dropped p =
      let same = stays s off n v h p in
      record {
        acks = (added s off n v h).sorted;
        covered = λ k. (added s off n v h).exact k v.room;
        queued = queue s off n v h;
        grows = grown s off n v h;
        bytes =
            let z : 0 ≡ ack_off (acked_by s off n) - ack_off s = omega (arith, same) in
            ap (λ m. drop m (content s.chunks)) z;
        joined = subst (λ z. Joined z s.chunks s.write_off) (sym same) v.joined;
        unacked = omega (arith, same, v.unacked);
        extent = refl;
      }

  late_eq :
      off ≤ ack_off (acked_by s off n)
      → ack_and_drop s off n
        ≡ drop_acked (acked_by s off n) (ack_off (acked_by s off n) - ack_off s)
  unfolding ack_and_drop ack
  late_eq p =
      let e : ltb (ack_off (acked_by s off n)) off ≡ false =
        le→ltb (ack_off (acked_by s off n)) off p in
      let l : ack_off (acked_by s off n) ≤ s.write_off = bounded s off n v h in
      let g : ack_off s ≤ ack_off (acked_by s off n) = grown s off n v h in
      let d : sub64 (ack_off (acked_by s off n)) (sub64 s.write_off s.unacked_len)
          ≡ ack_off (acked_by s off n) - ack_off s =
        omega (arith, v.unacked, v.small) in
      rw (v.some_data, e, d) refl

  late :
      off ≤ ack_off (acked_by s off n)
      → (t : SendBuf) × (ack_and_drop s off n ≡ ok t) × Dropped s t off n
  late p =
      let d : ℕ = ack_off (acked_by s off n) - ack_off s in
      let g : ack_off s ≤ ack_off (acked_by s off n) = grown s off n v h in
      let l : ack_off (acked_by s off n) ≤ s.write_off = bounded s off n v h in
      let (cs, k, ran, w) =
        drop_front-Front s.chunks (ack_off s) s.write_off d v.joined (omega arith) v.small in
      let t : SendBuf = record (acked_by s off n) {
        chunks = cs;
        pos = s.pos - k;
        unacked_len = sub64 s.unacked_len d;
      } in
      let o : ack_off t ≡ ack_off (acked_by s off n) = unfold ack_off in refl in
      let ran' : drop_acked (acked_by s off n) d ≡ ok t = unfold drop_acked in rw ran refl in
      (
        t,
        late_eq p ∙ ran',
        record {
          acks = (added s off n v h).sorted;
          covered = λ i. (added s off n v h).exact i v.room;
          queued = queue s off n v h;
          grows = omega (arith, g, o);
          bytes = w.bytes ∙ ap (λ m. drop (m - ack_off s) (content s.chunks)) (sym o);
          joined = subst (λ m. Joined m cs s.write_off) (omega (arith, o)) w.joined;
          unacked = omega (arith, o, v.unacked, v.small);
          extent = refl;
        },
      )

-- On a live queue, the acknowledgement of `[off, off + n)`, which was written, does not panic; it adds
-- the range to what is acknowledged, takes it out of what is to be sent again, and drops from the
-- front of the queue exactly the bytes up to the new `ack_off`; the chunks stay joined and
-- `unacked_len` stays the number of bytes from there on.
pub ack_and_drop-Dropped :
    (s : SendBuf) (off n : ℕ)
    → IsLive s
    → off + n ≤ s.write_off
    → (t : SendBuf) × (ack_and_drop s off n ≡ ok t) × Dropped s t off n
ack_and_drop-Dropped s off n v h = elim (dec_lt (ack_off (acked_by s off n)) off) [
  | yes p ↦ (acked_by s off n, early s off n v h p, early-Dropped s off n v h p)
  | no p ↦ late s off n v h (omega arith)
]
