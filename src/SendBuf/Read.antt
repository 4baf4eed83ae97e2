-- ===== src/SendBuf/Read.antt =====
-- `read` of src/connection/stream/send_buf.rs: the bytes of the stream at the offset of `send_off`.
use tquic.Base.{
  ℕ, zero, suc, ◌+◌, ◌-◌, ◌≤◌, ◌<◌, ◌≡◌, refl, ap, sym, ◌∙◌, true, false, ◌&&◌, not, arith, Option,
  some,
}
use tquic.Base.{
  List, [], ◌∷◌, ◌++◌, length, take, ltb, ◌==◌, add64, sub64, Bool, Bool-cases, inl, inr, ◌⊎◌,
  length-take, length-append, length-drop, lt→ltb, ltb→lt, ==_iff,
}
use mathlib.Core.Path.{subst}
use mathlib.Core.List.{append-nil, append_assoc}
use tquic.RangeBuf.{RangeBuf, len}
use tquic.SendBuf.{SendBuf, send_off, poll_transmit, read, read_loop, ready, is_none, fin_at}
use tquic.SendBuf.Push.{content, Joined}
use tquic.SendBuf.Fetch.{from_off, glue}
use tquic.SendBuf.Round.{IsReadable, starts, upto-le, round-Round}

-- What the outer loop of `read` hands out from `next` on, and the state `t` behind it.
pub record ReadOut (s t : SendBuf) (base room next : ℕ) (bytes : List ℕ) : Type 0 where
  pub readable : IsReadable t base
  pub fits : length bytes ≤ room
  pub stream : bytes ≡ take (length bytes) (from_off s base next)
  pub moves : 0 < room → ready s ≡ true → send_off s ≡ next → next < s.max_data → 0 < length bytes
  pub same : t ≡ record s { pos = t.pos; retransmits = t.retransmits; unsent_off = t.unsent_off }

abbrev goes_on : SendBuf → ℕ → ℕ → Bool
goes_on s room next =
    ltb 0 room && (ready s && ((send_off s == next) && ltb (send_off s) s.max_data))

length-content :
    (base : ℕ) (bs : List RangeBuf) (w : ℕ) → Joined base bs w → base + length (content bs) ≡ w
unfolding content
length-content base [] w j = omega (arith, j)
length-content base (b ∷ bs) w j =
    omega (arith, j.0, length-append b.bytes (content bs), length-content (base + len b) bs w j.1)

going_write : (s : SendBuf) (room next : ℕ) → goes_on s room next ≡ true → send_off s < s.write_off
going_write s room next e =
    by_tests (ltb 0 room) (is_none s.chunks) (send_off s == next) (ltb (send_off s) s.max_data)
      (send_off s) s.write_off e
  where
    by_tests : (a b c d : Bool) (x y : ℕ) → (a && ((not b && ltb x y) && (c && d))) ≡ true → x < y
    by_tests a b c d x y e = ground arith

going_next : (s : SendBuf) (room next : ℕ) → goes_on s room next ≡ true → next ≡ send_off s
going_next s room next e =
    by_tests (ltb 0 room) (ready s) (ltb (send_off s) s.max_data) (send_off s) next e
  where
    by_tests : (a b c : Bool) (x y : ℕ) → (a && (b && ((x == y) && c))) ≡ true → y ≡ x
    by_tests a b c x y e = ground arith

stopped :
    (s : SendBuf) (base room next : ℕ) (out : List ℕ)
    → IsReadable s base
    → (room ≡ 0) ⊎ (goes_on s room next ≡ false)
    → (◌≡◌ {A = Option ((List ℕ × ℕ) × SendBuf)}
        (some ((out, next), s))
        (some ((out ++ [], next + 0), s)))
      × ReadOut s s base room next []
stopped s base room next out v h = (
  (let e : next ≡ next + 0 = omega arith in
      ap (λ z. some ((z, next), s)) (sym (append-nil out)) ∙ ap (λ z. some ((out ++ [], z), s)) e),
  record {
    readable = v;
    fits = omega arith;
    stream = refl;
    moves = λ a b c d. absurd (halted h a b c d);
    same = refl;
  },
)
  where
    halted :
        (room ≡ 0) ⊎ (goes_on s room next ≡ false)
        → 0 < room
        → ready s ≡ true
        → send_off s ≡ next
        → next < s.max_data
        → ⊥
    halted (inl z) a b c d = omega arith
    halted (inr z) a b c d =
        let x : (send_off s == next) ≡ true = (==_iff _ _).1 c in
        let y : ltb (send_off s) s.max_data ≡ true = lt→ltb _ _ (omega (arith, c)) in
        let w : ltb 0 room ≡ true = lt→ltb 0 room a in
        let q : goes_on s room next ≡ true = rw (w, b, x, y) refl in cc (z, q)

module _ (s : SendBuf) (base room : ℕ) (v : IsReadable s base) (h : 0 < room)
    (k : send_off s < s.write_off) where
  abbrev count : ℕ
  count = (poll_transmit s room).0.1 - send_off s

  abbrev first : List ℕ
  first = take count (from_off s base (send_off s))

  first-length : length first ≡ count
  first-length =
      let u = upto-le s base room v h k in
      omega (
        arith,
        length-content base s.chunks s.write_off v.queue.joined,
        length-take count (from_off s base (send_off s)),
        length-drop (send_off s - base) (content s.chunks),
        u,
        v.queue.below,
      )

  loop_step :
      (fuel next : ℕ) (out : List ℕ)
      → goes_on s room next ≡ true
      → next ≡ send_off s
      → let t = (round-Round s base room v h k).0 in
        read_loop (suc fuel) s room next out
        ≡ read_loop fuel t (room - count) (next + count) (out ++ first)
  unfolding read_loop
  loop_step fuel next out e n =
      let u = upto-le s base room v h k in
      let (t, ran, w) = round-Round s base room v h k in
      let a : sub64 (poll_transmit s room).0.1 (send_off s) ≡ count =
        omega (arith, u, v.queue.small) in
      let b : add64 next count ≡ next + count = omega (arith, u, v.queue.small, n) in
      rw (e, starts s base room v h k, a, ran, starts s base room v h k, a, b) refl

  joined_stream :
      (t : SendBuf) (bytes : List ℕ)
      → t.chunks ≡ s.chunks
      → bytes ≡ take (length bytes) (from_off t base (send_off s + count))
      → first ++ bytes ≡ take (length (first ++ bytes)) (from_off s base (send_off s))
  joined_stream t bytes c w =
      let x : ℕ = send_off s in
      let y : ℕ = send_off s + count + length bytes in
      let l = first-length in
      let e1 : y - (x + length first) ≡ length bytes = omega (arith, l) in
      let e2 : x + length first ≡ x + count = omega (arith, l) in
      let e3 : y - x ≡ length (first ++ bytes) = omega (arith, l, length-append first bytes) in
      let line : take (y - (x + length first)) (from_off t base (x + length first)) ≡ bytes =
        ap (λ m. take m (from_off t base (x + length first))) e1
        ∙ ap (λ m. take (length bytes) (from_off t base m)) e2
        ∙ sym w in
      ap (λ z. first ++ z) (sym line)
      ∙ glue s base x y first t v.queue.below (omega (arith, l))
          (ap (λ m. take m (from_off s base x)) (sym l)) c
      ∙ ap (λ m. take m (from_off s base x)) e3

  -- The rest of the loop, behind the first round.
  joins :
      (t' : SendBuf) (bytes : List ℕ)
      → let t = (round-Round s base room v h k).0 in
        ReadOut t t' base (room - count) (send_off s + count) bytes
        → ReadOut s t' base room (send_off s) (first ++ bytes)
  joins t' bytes w =
      let (t, ran, r) = round-Round s base room v h k in
      let u = upto-le s base room v h k in
      let c : t.chunks ≡ s.chunks = ap (λ (z : SendBuf). z.chunks) r.same in
      let l = length-append first bytes in
      record {
        readable = w.readable;
        fits = omega (arith, w.fits, l, first-length, r.fits);
        stream = joined_stream t bytes c w.stream;
        moves = λ a b d e. omega (arith, l, first-length, u);
        same =
            w.same
            ∙ ap
                (λ (z : SendBuf). record z {
                  pos = t'.pos;
                  retransmits = t'.retransmits;
                  unsent_off = t'.unsent_off;
                })
                r.same;
      }

pub read_loop-ReadOut :
    (fuel : ℕ) (s : SendBuf) (base room next : ℕ) (out : List ℕ)
    → IsReadable s base
    → room ≤ fuel
    → (t : SendBuf) × (bytes : List ℕ) × (read_loop fuel s room next out
        ≡ some ((out ++ bytes, next + length bytes), t))
      × ReadOut s t base room next bytes
unfolding read_loop
read_loop-ReadOut zero s base room next out v f =
    let z = stopped s base room next out v (inl (omega arith)) in (s, [], z.0, z.1)
read_loop-ReadOut (suc fuel) s base room next out v f = elim (Bool-cases (goes_on s room next)) [
  | inl e ↦
      let a : 0 < room = ltb→lt 0 room (ground arith) in
      let b : send_off s < s.write_off = going_write s room next e in
      let n : next ≡ send_off s = going_next s room next e in
      let u = upto-le s base room v a b in
      let (t, ran, r) = round-Round s base room v a b in
      let (t', bytes, ran', w) =
        read_loop-ReadOut fuel t base (room - count s base room v a b)
          (next + count s base room v a b) (out ++ first s base room v a b) r.readable
          (omega (arith, u)) in
      (
        t',
        first s base room v a b ++ bytes,
        loop_step s base room v a b fuel next out e n
            ∙ ran'
            ∙ ap (λ z. some ((z, next + count s base room v a b + length bytes), t'))
                (append_assoc out (first s base room v a b) bytes)
            ∙ ap (λ z. some ((out ++ (first s base room v a b ++ bytes), z), t'))
                (omega (
                  arith,
                  length-append (first s base room v a b) bytes,
                  first-length s base room v a b,
                )),
        subst (λ m. ReadOut s t' base room m (first s base room v a b ++ bytes)) (sym n)
            (joins s base room v a b t' bytes (
              subst
                (λ m.
                  ReadOut t t' base (room - count s base room v a b) (m + count s base room v a b)
                    bytes)
                n w)),
      )
  | inr e ↦ let z = stopped s base room next out v (inr e) in (s, [], rw (e, read_loop) z.0, z.1)
]

read_by :
    (s t : SendBuf) (room n : ℕ) (bytes : List ℕ)
    → read_loop room s room (send_off s) [] ≡ some ((bytes, n), t)
    → read s room ≡ some ((bytes, fin_at t.fin_off n), t)
unfolding read
read_by s t room n bytes e = rw (e, read) refl

-- In a sound state whose queue begins at `base`, `read` into a buffer of `room` bytes comes to an end:
-- what it hands out are the bytes of the queue from the offset of `send_off` on, no more than there is
-- room for, and at least one where there is room, data ready and the limit not reached; the fin flag is
-- set exactly where these bytes end at the final size; the state stays such, and nothing but the position,
-- the ranges to send again and `unsent_off` changes.
pub read-ReadOut :
    (s : SendBuf) (base room : ℕ)
    → IsReadable s base
    → (t : SendBuf) × (bytes : List ℕ) × (read s room
        ≡ some ((bytes, fin_at s.fin_off (send_off s + length bytes)), t))
      × ReadOut s t base room (send_off s) bytes
read-ReadOut s base room v =
    let (t, bytes, ran, w) = read_loop-ReadOut room s base room (send_off s) [] v (omega arith) in
    let f : t.fin_off ≡ s.fin_off = ap (λ (z : SendBuf). z.fin_off) w.same in
    (
      t,
      bytes,
      read_by s t room (send_off s + length bytes) bytes ran
          ∙ ap (λ o. some ((bytes, fin_at o (send_off s + length bytes)), t)) f,
      w,
    )
