-- ===== src/RecvBuf/Deliver.antt =====
-- The receiving side of a stream as a whole: frames arrive in any order, split and repeated in any way,
-- and the application reads when it likes (src/connection/stream/recv_buf.rs).
use tquic.Base.{
  ℕ, zero, suc, ◌+◌, ◌-◌, ◌≤◌, ◌<◌, ◌^◌, ◌≡◌, refl, ap, ◌∙◌, sym, arith, List, [], ◌∷◌, ◌++◌,
  length,
}
use tquic.Base.{
  Bool, true, false, ◌||◌, Option, none, some, if◌then◌else◌, get_elem?, length-append, Bool-cases,
  inl, inr, ◌⊎◌, le→leb,
}
use mathlib.Core.Path.{subst}
use native.Mathlib.Decide.{dec_le}
use tquic.Error.{Result, ok, err, stream_reset}
use tquic.RangeBuf.{new}
use tquic.RecvBuf.{RecvBuf, write, read, read_some, read_chunks, refused, ready}
use tquic.RecvBuf.Chunks.{between, held, byte_at, buf_at, held-below}
use tquic.RecvBuf.Fill.{IsValid}
use tquic.RecvBuf.Queue.{unread}
use tquic.RecvBuf.Write.{FinOk, Accepted, write-Accepted}
use tquic.RecvBuf.Read.{read_chunks-Reads}

-- The offsets of a stream `f` from `a` on.
pub slice : (ℕ → ℕ) → ℕ → ℕ → List ℕ
slice f a zero = []
slice f a (suc n) = f a ∷ slice f (a + 1) n

pub slice-append : (f : ℕ → ℕ) (a n m : ℕ) → slice f a (n + m) ≡ slice f a n ++ slice f (a + n) m
unfolding slice
slice-append f a zero m =
    let e : 0 + m ≡ m = omega arith in let g : a + 0 ≡ a = omega arith in rw (e, g) refl
slice-append f a (suc n) m =
    let e : suc n + m ≡ suc (n + m) = omega arith in
    let g : a + suc n ≡ a + 1 + n = omega arith in
    rw (e, g) (ap (λ t. f a ∷ t) (slice-append f (a + 1) n m))

-- A list that has the stream's bytes at each place is a slice of it.
pub slice_of :
    (f : ℕ → ℕ) (a : ℕ) (xs : List ℕ)
    → ((i : ℕ) → i < length xs → get_elem? xs i ≡ some (f (a + i)))
    → xs ≡ slice f a (length xs)
unfolding slice
slice_of f a [] h = refl
slice_of f a (x ∷ xs) h =
    let first : x ≡ f a = (let e : a + 0 ≡ a = omega arith in cc (h 0 (omega arith), e)) in
    let rest = slice_of f (a + 1) xs (λ i p.
      let e : a + suc i ≡ a + 1 + i = omega arith in
      h (suc i) (omega arith) ∙ ap (λ n. some (f n)) e) in
    rw (sym first) (ap (λ t. x ∷ t) rest)

-- The frame carries the bytes of the stream `f`.
abbrev pub Carries : (ℕ → ℕ) → ℕ → List ℕ → Type 0
Carries f offset input = (i : ℕ) → i < length input → get_elem? input i ≡ some (f (offset + i))

-- A frame that passes the checks, or a successful read, which hands out bytes.
pub data Step (f : ℕ → ℕ) : RecvBuf → List ℕ → RecvBuf → Type 0 where
  arrive :
      (s t : RecvBuf) (offset : ℕ) (input : List ℕ) (fin : Bool)
      → offset + length input < 2 ^ 63
      → Carries f offset input
      → refused s (new input offset fin) ≡ none
      → write s offset input fin ≡ ok t
      → Step f s [] t
  deliver :
      (s : RecvBuf) (room : ℕ) (bytes : List ℕ) (fin : Bool)
      → (read s room).0 ≡ ok (bytes, fin)
      → Step f s bytes (read s room).1

-- Any sequence of such steps, with all the bytes handed out.
pub data Trace (f : ℕ → ℕ) (s : RecvBuf) : List ℕ → RecvBuf → Type 0 where
  here : Trace f s [] s
  next :
      {t u : RecvBuf} {out bytes all : List ℕ}
      → Trace f s out t
      → Step f t bytes u
      → all ≡ out ++ bytes
      → Trace f s all u

-- What is held is the stream's.
pub record Follows (f : ℕ → ℕ) (s : RecvBuf) : Type 0 where
  pub valid : IsValid s
  pub final_ok : FinOk s.fin_off s.recv_off
  pub running : s.shutdown ≡ false
  pub agrees : (x : ℕ) → held s.chunks x ≡ true → byte_at s.chunks x ≡ some (f x)

-- A step keeps to the stream, and hands out its next bytes.
pub record Served (f : ℕ → ℕ) (s : RecvBuf) (out : List ℕ) (t : RecvBuf) : Type 0 where
  pub follows : Follows f t
  pub handed : out ≡ slice f s.read_off (length out)
  pub moved : t.read_off ≡ s.read_off + length out

either_way :
    (h u : Bool) (old late : Option ℕ) (y : ℕ)
    → (h ≡ true → old ≡ some y)
    → (u ≡ true → late ≡ some y)
    → (h || u) ≡ true
    → (if h then old else if u then late else none) ≡ some y
either_way h u old late y a b c = ground arith

carried :
    (f : ℕ → ℕ) (offset : ℕ) (input : List ℕ) (fin : Bool) (x : ℕ)
    → Carries f offset input
    → offset ≤ x
    → x < offset + length input
    → buf_at (new input offset fin) x ≡ some (f x)
carried f offset input fin x c h k =
    let e : offset + (x - offset) ≡ x = omega arith in
    rw (le→leb offset x h) (c (x - offset) (omega arith) ∙ ap (λ n. some (f n)) e)

Accepted-Served :
    (f : ℕ → ℕ) (s t : RecvBuf) (offset : ℕ) (input : List ℕ) (fin : Bool)
    → Follows f s
    → Carries f offset input
    → Accepted s t (new input offset fin)
    → Served f s [] t
Accepted-Served f s t offset input fin v carries w = record {
  follows = record {
    valid = w.valid;
    final_ok = w.final_ok;
    running = ap (λ (z : RecvBuf). z.shutdown) w.rest ∙ v.running;
    agrees = λ x h.
        w.bytes x
        ∙ either_way (held s.chunks x) (unread s (new input offset fin) x) _ _ (f x) (v.agrees x)
            (λ u. carried f offset input fin x carries (ground arith) (ground arith))
            (sym (w.holds x) ∙ h);
  };
  handed = unfold slice in refl;
  moved = ap (λ (z : RecvBuf). z.read_off) w.rest ∙ omega arith;
}

-- A read of what is ready, with no error, runs the loop.
pub read_opened :
    (s : RecvBuf) (room : ℕ)
    → s.error ≡ none
    → ready s ≡ true
    → read s room ≡ (ok (read_some s room).0, (read_some s room).1)
unfolding read
read_opened s room q n =
    let by : Option ℕ → Result (List ℕ × Bool) × RecvBuf = λ o. elim o [
      | none ↦ (ok (read_some s room).0, (read_some s room).1)
      | some x ↦ (err (stream_reset x), record s { chunks = [] })
    ] in
    let opened : read s room ≡ by s.error = rw (n, read) refl in opened ∙ ap by q

-- A read that succeeds has run the loop.
read_ok :
    (s : RecvBuf) (room : ℕ) {bytes : List ℕ} {fin : Bool}
    → (read s room).0 ≡ ok (bytes, fin)
    → ((read_some s room).0.0 ≡ bytes) × ((read s room).1 ≡ (read_some s room).1)
read_ok s room {bytes = bytes} {fin = fin} e = by_error s.error refl (Bool-cases (ready s))
  where
    by_error :
        (o : Option ℕ)
        → s.error ≡ o
        → (ready s ≡ true) ⊎ (ready s ≡ false)
        → ((read_some s room).0.0 ≡ bytes) × ((read s room).1 ≡ (read_some s room).1)
    by_error o q (inr n) = absurd (unfold read in ground (arith, e, n))
    by_error (some x) q (inl n) = absurd (unfold read in ground (arith, e, n, q))
    by_error none q (inl n) =
        let same = read_opened s room q n in (cc (e, ap (λ r. r.0) same), ap (λ r. r.1) same)

some-Served :
    (f : ℕ → ℕ) (s : RecvBuf) (room : ℕ)
    → Follows f s
    → Served f s (read_some s room).0.0 (read_some s room).1
unfolding read_some
some-Served f s room v =
    let w = read_chunks-Reads s.chunks s.read_off room v.valid.chain in
    let m = w.below s.recv_off v.valid.order v.valid.below in
    let hi : s.read_off ≤ (read_chunks s.chunks s.read_off room).1.1 = omega (arith, w.moved) in
    record {
      follows = record {
        valid = record { chain = w.chain; below = m.0; order = m.1; small = v.valid.small };
        final_ok = v.final_ok;
        running = v.running;
        agrees = λ x h. elim (dec_le (read_chunks s.chunks s.read_off room).1.1 x) [
          | yes p ↦ (w.left x p).1 ∙ v.agrees x (sym (w.left x p).0 ∙ h)
          | no p ↦ absurd (ground (arith, h, held-below _ _ x w.chain (omega arith)))
        ];
      };
      handed = slice_of f s.read_off _ (λ i h.
          let e : s.read_off + i - s.read_off ≡ i = omega arith in
          let b : between s.read_off (read_chunks s.chunks s.read_off room).1.1 (s.read_off + i)
              ≡ true =
            ground (arith, w.moved) in
          ap (get_elem? _) (sym e)
          ∙ w.same (s.read_off + i) b
          ∙ v.agrees (s.read_off + i) (w.was_held (s.read_off + i) b));
      moved = w.moved;
    }

read-Served :
    (f : ℕ → ℕ) (s : RecvBuf) (room : ℕ) (bytes : List ℕ) (fin : Bool)
    → Follows f s
    → (read s room).0 ≡ ok (bytes, fin)
    → Served f s bytes (read s room).1
read-Served f s room bytes fin v e =
    let (x, y) = read_ok s room e in
    rw y (subst (λ z. Served f s z (read_some s room).1) x (some-Served f s room v))

Step-Served :
    {f : ℕ → ℕ} {s t : RecvBuf} {out : List ℕ} → Step f s out t → Follows f s → Served f s out t
Step-Served {f = f} (arrive s t offset input fin w c fine e) v =
    let (t', ran, q) = write-Accepted s offset input fin v.valid v.final_ok v.running w fine in
    let same : t' ≡ t = cc (ran, e) in
    subst (λ z. Served f s [] z) same (Accepted-Served f s t' offset input fin v c q)
Step-Served {f = f} (deliver s room bytes fin e) v = read-Served f s room bytes fin v e

joined :
    (f : ℕ → ℕ) (a b : ℕ) (xs ys : List ℕ)
    → xs ≡ slice f a (length xs)
    → ys ≡ slice f b (length ys)
    → b ≡ a + length xs
    → xs ++ ys ≡ slice f a (length (xs ++ ys))
joined f a b xs ys p q e =
    let r : ys ≡ slice f (a + length xs) (length ys) = q ∙ ap (λ z. slice f z (length ys)) e in
    ap (λ z. z ++ ys) p
    ∙ ap (λ z. slice f a (length xs) ++ z) r
    ∙ sym (slice-append f a (length xs) (length ys))
    ∙ ap (slice f a) (sym (length-append xs ys))

-- Whatever frames of the stream `f` arrive, in whatever order, cut and repeated in whatever way, with
-- reads of any size in between: what the reads hand out, put together, is the stream from `read_off` on
-- without a gap, and `read_off` has moved by its length; the state stays valid.
pub Trace-Served :
    (f : ℕ → ℕ) {s t : RecvBuf} {out : List ℕ} → Follows f s → Trace f s out t → Served f s out t
Trace-Served f v here = record { follows = v; handed = unfold slice in refl; moved = omega arith }
Trace-Served f {s = s} v (next {t = t} {u = u} {out = out} {bytes = bytes} {all = all} tr st e) =
    let p = Trace-Served f v tr in
    let q = Step-Served st p.follows in
    record {
      follows = q.follows;
      handed = rw e (joined f s.read_off t.read_off out bytes p.handed q.handed p.moved);
      moved = omega (arith, ap length e, length-append out bytes, p.moved, q.moved);
    }
