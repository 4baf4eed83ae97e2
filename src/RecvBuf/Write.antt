-- ===== src/RecvBuf/Write.antt =====
-- `write` of src/connection/stream/recv_buf.rs: what arrives fills the gaps of what is held.
use tquic.Base.{
  ℕ, suc, ◌+◌, ◌≤◌, ◌<◌, ◌^◌, ◌≡◌, refl, ap, ◌∙◌, sym, arith, List, [], ◌∷◌, length, max,
}
use tquic.Base.{
  ltb, leb, Bool, true, false, ◌&&◌, ◌||◌, not, Option, none, some, if◌then◌else◌, ◌⊎◌, inl, inr,
}
use tquic.Base.{Bool-cases}
use native.Mathlib.Decide.{dec_le}
use tquic.Error.{ok}
use tquic.RangeBuf.{new, RangeBuf, max_off, is_empty}
use tquic.RecvBuf.{
  RecvBuf, write_loop, write, write_buf, write_accepted, refused, is_fin, fin_at, breaks_fin,
}
use tquic.RecvBuf.Chunks.{held, buf_at, byte_at}
use tquic.RecvBuf.Overlap.{end}
use tquic.RecvBuf.Fill.{IsValid, byte_at-held}
use tquic.RecvBuf.Queue.{unread, Wrote, queue_Wrote}

idle_byte : (h : Bool) (o : Option ℕ) → (h ≡ false → o ≡ none) → o ≡ (if h then o else none)
idle_byte h o e = ground arith

-- Nothing was received behind a known final size.
abbrev pub FinOk : Option ℕ → ℕ → Type 0
FinOk none n = Unit {0}
FinOk (some f) n = n ≤ f

FinOk-le : (f : Option ℕ) (n m : ℕ) → n ≤ m → FinOk f m → FinOk f n
FinOk-le none n m h k = tt
FinOk-le (some f) n m h k = omega arith

-- Where all is read, an accepted buffer ends there at the latest, and at the very end with a fin flag.
fin_known :
    (f : Option ℕ) (b : RangeBuf) (x n : ℕ)
    → fin_at f x ≡ true
    → FinOk f n
    → breaks_fin f b ≡ false
    → (f ≡ some x) × (n ≤ x) × (max_off b ≤ x) × (b.fin ≡ true → max_off b ≡ x)
fin_known none b x n e h c = cc
fin_known (some f) b x n e h c = (ground arith, ground arith, ground arith, λ i. ground arith)

-- What `write` makes of a state that accepts the buffer `b`.
pub record Accepted (s t : RecvBuf) (b : RangeBuf) : Type 0 where
  pub valid : IsValid t
  pub final_ok : FinOk t.fin_off t.recv_off
  pub holds : (x : ℕ) → held t.chunks x ≡ (held s.chunks x || unread s b x)
  pub bytes :
      (x : ℕ)
      → byte_at t.chunks x ≡ (
          if held s.chunks x then byte_at s.chunks x else if unread s b x then buf_at b x else none)
  pub extent :
      t.recv_off ≡ (if b.fin || not (is_empty b) then max s.recv_off (end b) else s.recv_off)
  pub final : t.fin_off ≡ (if b.fin then some (end b) else s.fin_off)
  pub rest : t ≡ record s { chunks = t.chunks; recv_off = t.recv_off; fin_off = t.fin_off }

module _ (s : RecvBuf) (b : RangeBuf) (v : IsValid s) (final : FinOk s.fin_off s.recv_off)
    (o : s.shutdown ≡ false) (w : end b < 2 ^ 63) (fine : refused s b ≡ none) where
  ended : max_off b ≡ end b
  ended = omega arith

  checked : (breaks_fin s.fin_off b ≡ false) × ((b.fin && ltb (end b) s.recv_off) ≡ false)
  unfolding refused
  checked = ground (arith, ended)

  -- The final size, once `b` has set it or not.
  abbrev fin' : Option ℕ
  fin' = if b.fin then some (end b) else s.fin_off

  abbrev s' : RecvBuf
  s' = record s { fin_off = fin' }

  s'-IsValid : IsValid s'
  s'-IsValid = record { chain = v.chain; below = v.below; order = v.order; small = v.small }

  set_fin : (if b.fin then record s { fin_off = some (max_off b) } else s) ≡ s'
  set_fin = elim (Bool-cases b.fin) [ inl e ↦ rw (e, ended) refl | inr e ↦ rw e refl ]

  fin'-FinOk : FinOk fin' (max s.recv_off (end b))
  fin'-FinOk = elim (Bool-cases b.fin) [
    | inl e ↦ rw e (ground (arith, checked))
    | inr e ↦ rw e (grown s.fin_off final checked.0)
  ]
    where
      grown :
          (f : Option ℕ)
          → FinOk f s.recv_off
          → breaks_fin f b ≡ false
          → FinOk f (max s.recv_off (end b))
      grown none h c = tt
      grown (some f) h c = ground (arith, ended)

  queued-Accepted :
      (t : RecvBuf) → Wrote s' t b → (b.fin || not (is_empty b)) ≡ true → Accepted s t b
  queued-Accepted t f e = record {
    valid = f.valid;
    final_ok =
        let x : t.fin_off ≡ fin' = ap (λ (z : RecvBuf). z.fin_off) f.rest in
        rw (x, f.extent) fin'-FinOk;
    holds = f.holds;
    bytes = f.bytes;
    extent = rw e f.extent;
    final = ap (λ (z : RecvBuf). z.fin_off) f.rest;
    rest =
        f.rest
        ∙ ap (λ z. record s { chunks = t.chunks; recv_off = t.recv_off; fin_off = z })
            (sym (ap (λ (z : RecvBuf). z.fin_off) f.rest));
  }

  -- Nothing unread is in `b`.
  idle-Accepted :
      ((x : ℕ) → unread s b x ≡ false)
      → ((b.fin || not (is_empty b)) ≡ true → end b ≤ s.recv_off)
      → Accepted s s' b
  idle-Accepted h e = record {
    valid = s'-IsValid;
    final_ok = FinOk-le fin' s.recv_off (max s.recv_off (end b)) (omega arith) fin'-FinOk;
    holds = λ x. ground (arith, h x);
    bytes =
        λ x. rw (h x) (idle_byte (held s.chunks x) (byte_at s.chunks x) (byte_at-held s.chunks x));
    extent = ground arith;
    final = refl;
    rest = refl;
  }

  into : write_buf s b ≡ write_accepted s b
  unfolding write_buf
  into = rw (fine, write_buf) refl

  enters : write_buf s b ≡ (
      if is_fin s
      then ok s
      else if not b.fin && is_empty b
      then ok s'
      else if leb (end b) s.read_off && not (is_empty b)
      then ok s'
      else write_loop (suc (length s.chunks)) s' (b ∷ []))
  unfolding write_buf write_accepted
  enters =
      let one : length s.chunks + 1 ≡ suc (length s.chunks) = omega arith in
      into ∙ rw (set_fin, ended, one, write_accepted) refl

  -- All was read: the state stays.
  read_all : is_fin s ≡ true → (write_buf s b ≡ ok s') × Accepted s s' b
  read_all e =
      let k = fin_known s.fin_off b s.read_off s.recv_off e final checked.0 in
      let same : fin' ≡ s.fin_off = elim (Bool-cases b.fin) [
        | inl i ↦ rw (i, k.0, sym ended) (ap some (k.3 i))
        | inr i ↦ rw i refl
      ] in
      (
        enters ∙ rw e (ap (λ z. ok (record s { fin_off = z })) (sym same)),
        idle-Accepted (λ x. ground (arith, k, ended)) (λ i. omega (arith, k, ended, v.order)),
      )

  -- What gets to the queue is not behind `read_off`: an empty buffer with a fin flag was refused there.
  reaches :
      (not b.fin && is_empty b) ≡ false
      → (leb (end b) s.read_off && not (is_empty b)) ≡ false
      → (s.read_off ≤ b.off) ⊎ (s.read_off ≤ end b)
  reaches f g = elim (dec_le s.read_off (end b)) [
    | yes h ↦ inr h
    | no h ↦ absurd (ground (arith, checked, v.order))
  ]

  -- The three ways out before the queue, and the queue.
  outcome : (t : RecvBuf) × (write_buf s b ≡ ok t) × Accepted s t b
  outcome = elim (Bool-cases (is_fin s)) [
    | inl e ↦ (s', (read_all e).0, (read_all e).1)
    | inr e ↦ elim (Bool-cases (not b.fin && is_empty b)) [
      | inl f ↦ (
        s',
        enters ∙ rw (e, f) refl,
        idle-Accepted (λ x. ground arith) (λ i. absurd (ground arith)),
      )
      | inr f ↦ elim (Bool-cases (leb (end b) s.read_off && not (is_empty b))) [
        | inl g ↦ (
          s',
          enters ∙ rw (e, f, g) refl,
          idle-Accepted (λ x. ground arith) (λ i. ground (arith, v.order)),
        )
        | inr g ↦
            let (t, ran, q) = queue_Wrote s' b s'-IsValid o w (reaches f g) in
            (t, enters ∙ rw (e, f, g) ran, queued-Accepted t q (ground arith))
      ]
    ]
  ]

-- In a valid state that is not shut down, a STREAM frame that passes the checks is taken without panic:
-- what was held stays as it is, and of what was not held, exactly the unread offsets of the frame are
-- held now, with the frame's bytes; `recv_off` and the final size follow, the state stays valid, and
-- nothing else changes.
pub write-Accepted :
    (s : RecvBuf) (offset : ℕ) (input : List ℕ) (fin : Bool)
    → IsValid s
    → FinOk s.fin_off s.recv_off
    → s.shutdown ≡ false
    → offset + length input < 2 ^ 63
    → refused s (new input offset fin) ≡ none
    → (t : RecvBuf) × (write s offset input fin ≡ ok t) × Accepted s t (new input offset fin)
unfolding write
write-Accepted s offset input fin v final o w fine = outcome s _ v final o w fine
