-- ===== src/SendBuf/Front.antt =====
-- The loop of `ack_and_drop` of src/connection/stream/send_buf.rs over the front of the queue.
use tquic.Base.{ℕ, zero, suc, ◌+◌, ◌-◌, ◌≤◌, ◌<◌, ◌^◌, ◌≡◌, refl, true, false, arith, ap, sym, ◌∙◌}
use tquic.Base.{List, [], ◌∷◌, ◌++◌, length, drop, ◌==◌, leb}
use tquic.Base.{lt→leb, le→leb, length-drop}
use mathlib.Core.Path.{subst}
use native.Mathlib.Decide.{dec_le}
use tquic.Error.{ok}
use tquic.RangeBuf.{RangeBuf, len, advance}
use tquic.SendBuf.{drop_front}
use tquic.SendBuf.Push.{content, Joined}

pub drop_all :
    {A : Type 0} (xs ys : List A) (n : ℕ)
    → length xs ≤ n
    → drop n (xs ++ ys) ≡ drop (n - length xs) ys
drop_all [] ys n h = ap (λ k. drop k ys) (omega arith)
drop_all (x ∷ xs) ys zero h = absurd (omega arith)
drop_all (x ∷ xs) ys (suc n) h = drop_all xs ys n (omega arith) ∙ ap (λ k. drop k ys) (omega arith)

pub drop_some :
    {A : Type 0} (xs ys : List A) (n : ℕ) → n ≤ length xs → drop n (xs ++ ys) ≡ drop n xs ++ ys
drop_some xs ys zero h = refl
drop_some [] ys (suc n) h = absurd (omega arith)
drop_some (x ∷ xs) ys (suc n) h = drop_some xs ys n (omega arith)

-- What is left of joined chunks when `n` bytes go from the front.
pub record Front (x y n : ℕ) (bs cs : List RangeBuf) : Type 0 where
  pub bytes : content cs ≡ drop n (content bs)
  pub joined : Joined (x + n) cs y

pub Joined-le : (x : ℕ) (bs : List RangeBuf) (y : ℕ) → Joined x bs y → x ≤ y
Joined-le x [] y j = omega (arith, j)
Joined-le x (b ∷ bs) y j = omega (arith, Joined-le (x + len b) bs y j.1)

pub drop_front-Front :
    (bs : List RangeBuf) (x y n : ℕ)
    → Joined x bs y
    → x + n ≤ y
    → y < 2 ^ 64
    → (cs : List RangeBuf) × (k : ℕ) × (drop_front bs n ≡ ok (cs, k)) × Front x y n bs cs
unfolding drop_front content
drop_front-Front [] x y zero j h small =
    ([], 0, refl, record { bytes = refl; joined = omega (arith, j) })
drop_front-Front [] x y (suc n) j h small = absurd (omega (arith, j))
drop_front-Front (b ∷ bs) x y zero j h small = (
  b ∷ bs,
  0,
  refl,
  record {
    bytes = refl;
    joined = (omega (arith, j.0), subst (λ z. Joined z bs y) (omega arith) j.1);
  },
)
drop_front-Front (b ∷ bs) x y (suc n) j h small = elim (dec_le (len b) (suc n)) [
  | yes q ↦
      let (cs, k, ran, w) =
        drop_front-Front bs (x + len b) y (suc n - len b) j.1 (omega arith) small in
      let nonzero : (suc n == 0) ≡ false = ground arith in
      let whole : leb (len b) (suc n) ≡ true = le→leb (len b) (suc n) q in
      (
        cs,
        k + 1,
        rw (nonzero, whole, ran) refl,
        record {
          bytes = w.bytes ∙ sym (drop_all b.bytes (content bs) (suc n) q);
          joined = subst (λ z. Joined z cs y) (omega arith) w.joined;
        },
      )
  | no q ↦
      let nonzero : (suc n == 0) ≡ false = ground arith in
      let part : leb (len b) (suc n) ≡ false = lt→leb (len b) (suc n) (omega arith) in
      let n' = length-drop (suc n) b.bytes in
      let top = Joined-le (x + len b) bs y j.1 in
      (
        advance b (suc n) ∷ bs,
        0,
        rw (nonzero, part) refl,
        record {
          bytes = sym (drop_some b.bytes (content bs) (suc n) (omega arith));
          joined = (omega (arith, j.0), subst (λ z. Joined z bs y) (omega (arith, n')) j.1);
        },
      )
]
