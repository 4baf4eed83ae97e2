-- ===== src/RecvBuf/Read.antt =====
-- `read` of src/connection/stream/recv_buf.rs: the bytes from `read_off` on, up to the first gap.
use tquic.Base.{
  ℕ, zero, suc, ◌+◌, ◌-◌, ◌≤◌, ◌<◌, ◌≡◌, refl, arith, List, [], ◌∷◌, ◌++◌, take, length, min,
}
use tquic.Base.{ltb, true, false, ◌&&◌, if◌then◌else◌, ◌==◌, add64, get_elem?}
use tquic.Base.{lt→ltb, le→ltb, Bool-cases, inl, inr, length-take, length-append}
use mathlib.Core.Path.{subst}
use native.Mathlib.Decide.{dec_lt}
use tquic.RangeBuf.{RangeBuf, len, advance}
use tquic.RecvBuf.{Entries, read_chunks}
use tquic.RecvBuf.Chunks.{Chain, between, held, byte_at, same_choice, held-below, get_elem?-take}
use tquic.RecvBuf.Overlap.{advance-off, advance-IsPart}
use tquic.RecvBuf.Fill.{Below}

pub get_elem?-append :
    (xs ys : List ℕ) (i : ℕ)
    → get_elem? (xs ++ ys) i
      ≡ (if ltb i (length xs) then get_elem? xs i else get_elem? ys (i - length xs))
get_elem?-append [] ys i = ground arith
get_elem?-append (x ∷ xs) ys zero = ground arith
get_elem?-append (x ∷ xs) ys (suc i) = ground (arith, get_elem?-append xs ys i)

-- What the loop of `read` makes of the chunks `s` from `lo` on: the bytes, the chunks `t` left, from
-- `hi` on.
pub record Reads (s : Entries) (lo room : ℕ) (bytes : List ℕ) (t : Entries) (hi : ℕ) : Type 0 where
  pub moved : hi ≡ lo + length bytes
  pub fits : length bytes ≤ room
  pub chain : Chain hi t
  pub below : (n : ℕ) → lo ≤ n → Below s n → Below t n × (hi ≤ n)
  pub was_held : (x : ℕ) → between lo hi x ≡ true → held s x ≡ true
  pub same : (x : ℕ) → between lo hi x ≡ true → get_elem? bytes (x - lo) ≡ byte_at s x
  pub left : (x : ℕ) → hi ≤ x → (held t x ≡ held s x) × (byte_at t x ≡ byte_at s x)
  pub greedy : length bytes < room → held s hi ≡ false

nothing-Reads :
    (s : Entries) (lo room : ℕ)
    → Chain lo s
    → (0 < room → held s lo ≡ false)
    → Reads s lo room [] s lo
nothing-Reads s lo room c g = record {
  moved = omega arith;
  fits = omega arith;
  chain = c;
  below = λ n h b. (b, h);
  was_held = λ x h. absurd (ground arith);
  same = λ x h. absurd (ground arith);
  left = λ x h. (refl, refl);
  greedy = g;
}

module _ (k : ℕ) (b : RangeBuf) (r : Entries) (room : ℕ) (c : Chain b.off ((k, b) ∷ r)) where
  -- A part of the first chunk is read.
  part-Reads :
      room < len b
      → Reads ((k, b) ∷ r) b.off room (take room b.bytes) ((k, advance b room) ∷ r) (b.off + room)
  part-Reads h =
      let e = advance-off b room (omega arith) (omega (arith, c)) in
      let n = length-take room b.bytes in
      let part = advance-IsPart b room (omega arith) (omega (arith, c)) in
      record {
        moved = omega (arith, n);
        fits = omega (arith, n);
        chain = (omega (arith, e), omega (arith, e, c), c.2, c.3, c.4);
        below = λ n h w. (w, omega (arith, w, c));
        was_held = λ x p. unfold held in ground (arith, c);
        same = λ x p. unfold byte_at in ground (arith, get_elem?-take room b.bytes (x - b.off), c);
        left = λ x p. (
          unfold held in ground (arith, e, c),
          unfold byte_at in
              same_choice (between (advance b room).off k x) (between b.off k x) _ _ (byte_at r x)
                (ground (arith, e)) (λ i. part.bytes x (omega (arith, e)) (ground (arith, e, c))),
        );
        greedy = λ p. absurd (omega (arith, n));
      }

  -- The place in the rest of the bytes.
  at_rest : (x : ℕ) → k ≤ x → x - b.off - len b ≡ x - k
  at_rest x h = omega (arith, c)

  -- All of the first chunk is read, and then the rest.
  whole-Reads :
      (bs : List ℕ) (t : Entries) (hi : ℕ)
      → len b ≤ room
      → Reads r k (room - len b) bs t hi
      → Reads ((k, b) ∷ r) b.off room (b.bytes ++ bs) t hi
  whole-Reads bs t hi h w =
      let n = length-append b.bytes bs in
      record {
        moved = omega (arith, n, w.moved, c);
        fits = omega (arith, n, w.fits);
        chain = w.chain;
        below = λ n p q. w.below n q.0 q.1;
        was_held = λ x p. unfold held in ground (arith, w.was_held x, c);
        same = λ x p.
            unfold byte_at in
            ground (arith, get_elem?-append b.bytes bs (x - b.off), w.same x, c, at_rest x);
        left = λ x p. unfold held byte_at in ground (arith, w.left x, w.moved, c);
        greedy = λ p. unfold held in ground (arith, w.greedy, n, w.moved, c);
      }

blocked : (room off lo : ℕ) → (ltb 0 room && (off == lo)) ≡ false → lo ≤ off → 0 < room → lo < off
blocked room off lo e h p = ground arith

-- `read_chunks` does what `Reads` says.
abbrev ReadsAll : Entries → ℕ → ℕ → Type 0
ReadsAll s lo room = let p = read_chunks s lo room in Reads s lo room p.0 p.1.0 p.1.1

module _ (k : ℕ) (b : RangeBuf) (r : Entries) (room : ℕ) (c : Chain b.off ((k, b) ∷ r))
    (some_room : 0 < room) where
  reads_part :
      room < len b
      → read_chunks ((k, b) ∷ r) b.off room
        ≡ (take room b.bytes, ((k, advance b room) ∷ r, b.off + room))
  unfolding read_chunks
  reads_part h =
      let n : min (len b) room ≡ room = omega arith in
      let e : ltb 0 room ≡ true = lt→ltb 0 room some_room in
      let f : (b.off == b.off) ≡ true = ground arith in
      let g : ltb room (len b) ≡ true = lt→ltb room (len b) h in
      let o : add64 b.off room ≡ b.off + room = omega (arith, c) in rw (n, e, f, g, o) refl

  reads_whole :
      len b ≤ room
      → read_chunks ((k, b) ∷ r) b.off room
        ≡ (let p = read_chunks r k (room - len b) in (b.bytes ++ p.0, p.1))
  unfolding read_chunks
  reads_whole h =
      let n : min (len b) room ≡ len b = omega arith in
      let e : ltb 0 room ≡ true = lt→ltb 0 room some_room in
      let f : (b.off == b.off) ≡ true = ground arith in
      let g : ltb (len b) (len b) ≡ false = le→ltb (len b) (len b) (omega arith) in
      let o : add64 b.off (len b) ≡ k = omega (arith, c) in rw (n, e, f, g, o) refl

  first-Reads : ReadsAll r k (room - len b) → ReadsAll ((k, b) ∷ r) b.off room
  first-Reads w = elim (dec_lt room (len b)) [
    | yes h ↦ rw (reads_part h) (part-Reads k b r room c h)
    | no h ↦ rw (reads_whole (omega arith)) (whole-Reads k b r room c _ _ _ (omega arith) w)
  ]

pub read_chunks-Reads : (s : Entries) (lo room : ℕ) → Chain lo s → ReadsAll s lo room
read_chunks-Reads [] lo room c =
    unfold read_chunks in nothing-Reads [] lo room c (λ h. unfold held in refl)
read_chunks-Reads ((k, b) ∷ r) lo room c = elim (Bool-cases (ltb 0 room && (b.off == lo))) [
  | inl e ↦
      let at : b.off ≡ lo = ground arith in
      let c' : Chain b.off ((k, b) ∷ r) = (omega arith, c.1, c.2, c.3, c.4) in
      subst (λ x. ReadsAll ((k, b) ∷ r) x room) at
        (first-Reads k b r room c' (ground arith) (read_chunks-Reads r k (room - len b) c.4))
  | inr e ↦
      unfold read_chunks in
      rw e (
        nothing-Reads ((k, b) ∷ r) lo room c (λ h.
          held-below b.off ((k, b) ∷ r) lo (omega arith, c.1, c.2, c.3, c.4)
            (blocked room b.off lo e c.0 h)))
]
