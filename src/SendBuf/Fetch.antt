-- ===== src/SendBuf/Fetch.antt =====
-- `read_range` of src/connection/stream/send_buf.rs, and the inner loop of `read`: a range of the
-- queue's bytes is collected in full.
use tquic.Base.{
  ℕ, zero, suc, ◌+◌, ◌-◌, ◌≤◌, ◌<◌, ◌^◌, ◌≡◌, refl, ap, sym, ◌∙◌, true, false, arith, min, some,
}
use tquic.Base.{
  List, [], ◌∷◌, ◌++◌, length, take, drop, ◌==◌, if◌then◌else◌, add64, sub64, le→leb, le→ltb,
  lt→ltb, length-take, length-drop, Bool-cases, inl, inr,
}
use mathlib.Core.Path.{subst}
use native.Mathlib.Decide.{dec_lt}
use tquic.RangeBuf.{RangeBuf, len, max_off}
use tquic.SendBuf.{SendBuf, read_from, read_range, read_whole}
use tquic.SendBuf.Push.{content, Joined}
use tquic.SendBuf.Front.{drop_all, drop_some, Joined-le}

-- The first `n` chunks end at `o` at the latest.
abbrev pub Passed : ℕ → List RangeBuf → ℕ → Type 0
Passed zero bs o = Unit {0}
Passed (suc n) [] o = Unit {0}
Passed (suc n) (b ∷ bs) o = (b.off + len b ≤ o) × Passed n bs o

pub Passed-le : (n : ℕ) (bs : List RangeBuf) (o o' : ℕ) → o ≤ o' → Passed n bs o → Passed n bs o'
Passed-le zero bs o o' h p = tt
Passed-le (suc n) [] o o' h p = tt
Passed-le (suc n) (b ∷ bs) o o' h p = (omega (arith, p), Passed-le n bs o o' h p.1)

Passed-add :
    (n m : ℕ) (bs : List RangeBuf) (o : ℕ)
    → Passed n bs o
    → Passed m (drop n bs) o
    → Passed (n + m) bs o
Passed-add zero m bs o p q = subst (λ k. Passed k bs o) (omega arith) q
Passed-add (suc n) m [] o p q =
    subst (λ k. Passed k [] o) (let e : suc (n + m) ≡ suc n + m = omega arith in e) tt
Passed-add (suc n) m (b ∷ bs) o p q =
    subst (λ k. Passed k (b ∷ bs) o) (let e : suc (n + m) ≡ suc n + m = omega arith in e)
      (p.0, Passed-add n m bs o p.1 q)

pub take_all : (xs : List ℕ) (n : ℕ) → length xs ≤ n → take n xs ≡ xs
take_all [] zero h = refl
take_all [] (suc n) h = refl
take_all (x ∷ xs) zero h = absurd (omega arith)
take_all (x ∷ xs) (suc n) h = ap (λ t. x ∷ t) (take_all xs n (omega arith))

take_some : (xs ys : List ℕ) (n : ℕ) → n ≤ length xs → take n (xs ++ ys) ≡ take n xs
take_some xs ys zero h = refl
take_some [] ys (suc n) h = absurd (omega arith)
take_some (x ∷ xs) ys (suc n) h = ap (λ t. x ∷ t) (take_some xs ys n (omega arith))

take_nil : (n : ℕ) → take {A = ℕ} n [] ≡ []
take_nil zero = refl
take_nil (suc n) = refl

drop_nil : (n : ℕ) → drop {A = ℕ} n [] ≡ []
drop_nil zero = refl
drop_nil (suc n) = refl

pub take_add : (xs : List ℕ) (n m : ℕ) → take (n + m) xs ≡ take n xs ++ take m (drop n xs)
take_add xs zero m = let e : 0 + m ≡ m = omega arith in rw e refl
take_add [] (suc n) m = let e : suc n + m ≡ suc (n + m) = omega arith in rw e (sym (take_nil m))
take_add (x ∷ xs) (suc n) m =
    let e : suc n + m ≡ suc (n + m) = omega arith in rw e (ap (λ t. x ∷ t) (take_add xs n m))

pub drop-drop : (xs : List ℕ) (n m : ℕ) → drop m (drop n xs) ≡ drop (n + m) xs
drop-drop xs zero m = let e : 0 + m ≡ m = omega arith in rw e refl
drop-drop [] (suc n) m = let e : suc n + m ≡ suc (n + m) = omega arith in rw e (drop_nil m)
drop-drop (x ∷ xs) (suc n) m =
    let e : suc n + m ≡ suc (n + m) = omega arith in rw e (drop-drop xs n m)

-- What `read_from` finds of `[x, y)` in chunks that begin at `z`.
record Found (z : ℕ) (bs : List RangeBuf) (p x y : ℕ) (bytes : List ℕ) (p' : ℕ) : Type 0 where
  some_bytes : 0 < length bytes
  fits : x + length bytes ≤ y
  same : bytes ≡ take (length bytes) (drop (x - z) (content bs))
  onward : p ≤ p'
  passed : Passed (p' - p) bs (x + length bytes)

module _ (b : RangeBuf) (bs : List RangeBuf) (p x y : ℕ) (low : b.off ≤ x)
    (high : x < b.off + len b) (xy : x < y) (small : b.off + len b < 2 ^ 64)
    (ysmall : y < 2 ^ 64) where
  abbrev upto : ℕ
  upto = min (y - b.off) (len b)

  abbrev part : List ℕ
  part = take (upto - (x - b.off)) (drop (x - b.off) b.bytes)

  here_eq : read_from (b ∷ bs) p x y ≡ (part, if upto == len b then p + 1 else p)
  unfolding read_from
  here_eq =
      let e : sub64 x b.off ≡ x - b.off = omega arith in
      let f : sub64 y b.off ≡ y - b.off = omega arith in
      let m : max_off b ≡ b.off + len b = omega arith in
      rw (m, le→leb b.off x low, lt→ltb x (b.off + len b) high, e, f) refl

  part-length : length part ≡ upto - (x - b.off)
  part-length = omega (
    arith,
    length-take (upto - (x - b.off)) (drop (x - b.off) b.bytes),
    length-drop (x - b.off) b.bytes,
  )

  here-Found : Found b.off (b ∷ bs) p x y part (if upto == len b then p + 1 else p)
  here-Found = record {
    some_bytes = omega (arith, part-length);
    fits = omega (arith, part-length);
    same = rw part-length (
        unfold content in
        (sym (
            take_some (drop (x - b.off) b.bytes) (content bs) (upto - (x - b.off))
              (omega (arith, length-drop (x - b.off) b.bytes)))
          ∙ ap (take (upto - (x - b.off)))
              (sym (drop_some b.bytes (content bs) (x - b.off) (omega arith)))));
    onward = ground arith;
    passed = elim (Bool-cases (upto == len b)) [
      | inl e ↦
          let one : p + 1 - p ≡ suc zero = omega arith in
          rw (e, one) (ground (arith, part-length), tt)
      | inr e ↦ let none : p - p ≡ zero = omega arith in rw (e, none) tt
    ];
  }
  -- A chunk that ends before `x`.

later-Found :
    (b : RangeBuf) (bs : List RangeBuf) (p x y : ℕ) (bytes : List ℕ) (p' : ℕ)
    → b.off + len b ≤ x
    → Found (b.off + len b) bs (p + 1) x y bytes p'
    → Found b.off (b ∷ bs) p x y bytes p'
later-Found b bs p x y bytes p' h f = record {
  some_bytes = f.some_bytes;
  fits = f.fits;
  same =
      let e : x - b.off - len b ≡ x - (b.off + len b) = omega arith in
      f.same
      ∙ unfold content in
        ap (take (length bytes)) (
          ap (λ k. drop k (content bs)) (sym e)
          ∙ sym (drop_all b.bytes (content bs) (x - b.off) (omega arith)));
  onward = omega (arith, f.onward);
  passed =
      let e : suc (p' - (p + 1)) ≡ p' - p = omega (arith, f.onward) in
      subst (λ k. Passed k (b ∷ bs) (x + length bytes)) e (omega arith, f.passed);
}

-- `read_from` finds the bytes at the beginning of the range.
abbrev Finds : ℕ → List RangeBuf → ℕ → ℕ → ℕ → Type 0
Finds z bs p x y = let r = read_from bs p x y in Found z bs p x y r.0 r.1

past_eq :
    (b : RangeBuf) (bs : List RangeBuf) (p x y : ℕ)
    → b.off + len b ≤ x
    → x < 2 ^ 64
    → read_from (b ∷ bs) p x y ≡ read_from bs (p + 1) x y
unfolding read_from
past_eq b bs p x y h u =
    let m : max_off b ≡ b.off + len b = omega arith in
    rw (m, le→leb b.off x (omega arith), le→ltb x (b.off + len b) h) refl

read_from-Found :
    (bs : List RangeBuf) (z w p x y : ℕ)
    → Joined z bs w
    → z ≤ x
    → x < y
    → y ≤ w
    → w < 2 ^ 64
    → Finds z bs p x y
read_from-Found [] z w p x y j a b c d = absurd (omega (arith, j))
read_from-Found (b ∷ bs) z w p x y j h k l u =
    let top = Joined-le (z + len b) bs w j.1 in
    subst (λ t. Finds t (b ∷ bs) p x y) j.0
      (elim (dec_lt x (b.off + len b)) [
        | yes i ↦
            rw (here_eq b bs p x y (omega (arith, j.0)) i k (omega (arith, j.0)) (omega arith))
              (here-Found b bs p x y (omega (arith, j.0)) i k (omega (arith, j.0)) (omega arith))
        | no i ↦ rw (past_eq b bs p x y (omega arith) (omega arith)) (
            later-Found b bs p x y _ _ (omega arith) (
              read_from-Found bs (b.off + len b) w (p + 1) x y
                (subst (λ t. Joined (t + len b) bs w) (sym j.0) j.1) (omega arith) k l u))
      ])

-- The chunks from `n` on begin at some `z`, and hold the bytes from there.
record Resumed (n : ℕ) (bs : List RangeBuf) (base w x : ℕ) : Type 0 where
  start : ℕ
  reached : start ≤ x
  joined : Joined start (drop n bs) w
  same : drop (x - base) (content bs) ≡ drop (x - start) (content (drop n bs))

resumes :
    (n : ℕ) (bs : List RangeBuf) (base w x : ℕ)
    → Joined base bs w
    → Passed n bs x
    → base ≤ x
    → Resumed n bs base w x
resumes zero bs base w x j p h = record { start = base; reached = h; joined = j; same = refl }
resumes (suc n) [] base w x j p h = record { start = base; reached = h; joined = j; same = refl }
resumes (suc n) (b ∷ bs) base w x j p h =
    let r = resumes n bs (base + len b) w x j.1 p.1 (omega (arith, j.0, p.0)) in
    record {
      start = r.start;
      reached = r.reached;
      joined = r.joined;
      same =
          let e : x - base - len b ≡ x - (base + len b) = omega arith in
          let g : drop (x - base) (content (b ∷ bs)) ≡ drop (x - base - len b) (content bs) =
            unfold content in drop_all b.bytes (content bs) (x - base) (omega (arith, j.0, p.0)) in
          g ∙ ap (λ k. drop k (content bs)) e ∙ r.same;
    }

-- A queue of joined chunks from `base` on, whose position is at `x` or before it.
pub record At (s : SendBuf) (base x : ℕ) : Type 0 where
  pub joined : Joined base s.chunks s.write_off
  pub passed : Passed s.pos s.chunks x
  pub below : base ≤ x
  pub small : s.write_off < 2 ^ 64

-- The bytes of the stream from `x` on.
abbrev pub from_off : SendBuf → ℕ → ℕ → List ℕ
from_off s base x = drop (x - base) (content s.chunks)

read_range-Found :
    (s : SendBuf) (base x y : ℕ)
    → At s base x
    → x < y
    → y ≤ s.write_off
    → let (bytes, t) = read_range s x y in
      (0 < length bytes)
      × (x + length bytes ≤ y)
      × (bytes ≡ take (length bytes) (from_off s base x))
      × At t base (x + length bytes)
      × (t ≡ record s { pos = t.pos })
unfolding read_range
read_range-Found s base x y v h k =
    let r = resumes s.pos s.chunks base s.write_off x v.joined v.passed v.below in
    let f =
      read_from-Found (drop s.pos s.chunks) r.start s.write_off s.pos x y r.joined r.reached h k
        v.small in
    (
      f.some_bytes,
      f.fits,
      f.same ∙ ap (take _) (sym r.same),
      record {
        joined = v.joined;
        passed =
            let e : s.pos + ((read_from (drop s.pos s.chunks) s.pos x y).1 - s.pos)
                ≡ (read_from (drop s.pos s.chunks) s.pos x y).1 =
              omega (arith, f.onward) in
            subst
              (λ n. Passed n s.chunks (x + length (read_from (drop s.pos s.chunks) s.pos x y).0)) e
              (Passed-add s.pos _ s.chunks _ (Passed-le s.pos s.chunks x _ (omega arith) v.passed)
                f.passed);
        below = omega (arith, v.below);
        small = v.small;
      },
      refl,
    )

-- What the first round found and what the next rounds find is the whole.
pub glue :
    (s : SendBuf) (base x y : ℕ) (bytes : List ℕ) (s' : SendBuf)
    → base ≤ x
    → x + length bytes ≤ y
    → bytes ≡ take (length bytes) (from_off s base x)
    → s'.chunks ≡ s.chunks
    → bytes ++ take (y - (x + length bytes)) (from_off s' base (x + length bytes))
      ≡ take (y - x) (from_off s base x)
glue s base x y bytes s' h k e c =
    let all : List ℕ = from_off s base x in
    let n : ℕ = length bytes in
    let m : ℕ = y - (x + length bytes) in
    let rest : from_off s' base (x + n) ≡ drop n all =
      ap (λ t. drop (x + n - base) (content t)) c
      ∙ ap (λ t. drop t (content s.chunks)) (let i : x + n - base ≡ x - base + n = omega arith in i)
      ∙ sym (drop-drop (content s.chunks) (x - base) n) in
    let total : n + m ≡ y - x = omega arith in
    ap (λ t. t ++ take m (from_off s' base (x + n))) e
    ∙ ap (λ t. take n all ++ take m t) rest
    ∙ sym (take_add all n m)
    ∙ ap (λ t. take t all) total

-- The whole range is collected, in as many rounds as it has bytes at most.
pub read_whole-Found :
    (fuel : ℕ) (s : SendBuf) (base x y : ℕ)
    → At s base x
    → x ≤ y
    → y ≤ s.write_off
    → y - x ≤ fuel
    → (t : SendBuf) × (read_whole fuel s x y ≡ some (take (y - x) (from_off s base x), t))
      × At t base y
      × (t ≡ record s { pos = t.pos })
unfolding read_whole
read_whole-Found zero s base x y v h k f =
    let e : x ≡ y = omega arith in
    let g : (x == y) ≡ true = ground arith in
    let n : y - x ≡ 0 = omega arith in (s, rw (g, n) refl, subst (At s base) e v, refl)
read_whole-Found (suc fuel) s base x y v h k f = elim (dec_lt x y) [
  | yes i ↦
      let r = read_range-Found s base x y v i k in
      let bytes : List ℕ = (read_range s x y).0 in
      let s' : SendBuf = (read_range s x y).1 in
      let w : s'.write_off ≡ s.write_off = ap (λ (z : SendBuf). z.write_off) r.4 in
      let c : s'.chunks ≡ s.chunks = ap (λ (z : SendBuf). z.chunks) r.4 in
      let ih =
        read_whole-Found fuel s' base (x + length bytes) y r.3 r.1 (omega (arith, w))
          (omega (arith, r.0, r.1)) in
      let e : add64 x (length bytes) ≡ x + length bytes = omega (arith, r.1, v.small) in
      let ne : (x == y) ≡ false = ground arith in
      (
        ih.0,
        rw (ne, e, ih.1) (ap (λ z. some (z, ih.0)) (glue s base x y bytes s' v.below r.1 r.2 c)),
        ih.2,
        ih.3 ∙ ap (λ (z : SendBuf). record z { pos = ih.0.pos }) r.4,
      )
  | no i ↦
      let e : x ≡ y = omega arith in
      let g : (x == y) ≡ true = ground arith in
      let n : y - x ≡ 0 = omega arith in (s, rw (g, n) refl, subst (At s base) e v, refl)
]
