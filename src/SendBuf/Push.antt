-- ===== src/SendBuf/Push.antt =====
-- The loop of `write` of src/connection/stream/send_buf.rs: chunks join the queue.
use tquic.Base.{
  ℕ, zero, suc, ◌+◌, ◌-◌, ◌≤◌, ◌<◌, ◌^◌, ◌≡◌, refl, Bool, false, ◌&&◌, arith, ap, sym, ◌∙◌,
}
use tquic.Base.{
  List, [], ◌∷◌, ◌++◌, length, take, drop, length-append, add64, lt→ltb, le→ltb, if◌then◌else◌,
  ◌==◌, length-take, length-drop, take-append-drop,
}
use mathlib.Core.Path.{subst}
use native.Mathlib.Decide.{dec_lt}
use mathlib.Core.List.{append_assoc, append-nil}
use tquic.RangeBuf.{RangeBuf, len}
use tquic.SendBuf.{SendBuf, push_chunks, push}

-- The bytes of the queue, in order.
unfoldable pub content : List RangeBuf → List ℕ
content [] = []
content (b ∷ bs) = b.bytes ++ content bs

-- Each chunk begins where the one before it ends: from `x` to `y`.
abbrev pub Joined : ℕ → List RangeBuf → ℕ → Type 0
Joined x [] y = x ≡ y
Joined x (b ∷ bs) y = (b.off ≡ x) × Joined (x + len b) bs y

-- What appending `input` does to the queue.
pub record Pushed (s t : SendBuf) (input : List ℕ) : Type 0 where
  pub bytes : content t.chunks ≡ content s.chunks ++ input
  pub joined : (x : ℕ) → Joined x s.chunks s.write_off → Joined x t.chunks t.write_off
  pub extent : t.write_off ≡ s.write_off + length input
  pub rest : t ≡ record s { chunks = t.chunks; write_off = t.write_off }

content-append : (xs ys : List RangeBuf) → content (xs ++ ys) ≡ content xs ++ content ys
unfolding content
content-append [] ys = refl
content-append (b ∷ bs) ys =
    ap (λ z. b.bytes ++ z) (content-append bs ys)
    ∙ sym (append_assoc b.bytes (content bs) (content ys))

Joined-push :
    (x y : ℕ) (xs : List RangeBuf) (b : RangeBuf)
    → Joined x xs y
    → b.off ≡ y
    → Joined x (xs ++ (b ∷ [])) (y + len b)
Joined-push x y [] b j e = (omega arith, omega arith)
Joined-push x y (c ∷ cs) b j e = (j.0, Joined-push (x + len c) y cs b j.1 e)

push-Pushed :
    (s : SendBuf) (input : List ℕ) (fin : Bool)
    → s.write_off + length input < 2 ^ 64
    → Pushed s (push s input fin) input
push-Pushed s input fin h =
    let e : add64 s.write_off (length input) ≡ s.write_off + length input = omega arith in
    record {
      bytes =
          content-append s.chunks _
          ∙ unfold content in ap (λ z. content s.chunks ++ z) (append-nil input);
      joined = λ x j. rw e (Joined-push x s.write_off s.chunks _ j refl);
      extent = e;
      rest = refl;
    }

Pushed-refl : (s : SendBuf) → Pushed s s []
Pushed-refl s = record {
  bytes = sym (append-nil (content s.chunks));
  joined = λ x j. j;
  extent = omega arith;
  rest = refl;
}

Pushed-trans : (s t u : SendBuf) (a b : List ℕ) → Pushed s t a → Pushed t u b → Pushed s u (a ++ b)
Pushed-trans s t u a b p q = record {
  bytes = q.bytes ∙ ap (λ z. z ++ b) p.bytes ∙ append_assoc (content s.chunks) a b;
  joined = λ x j. q.joined x (p.joined x j);
  extent = omega (arith, q.extent, p.extent, length-append a b);
  rest =
      q.rest ∙ ap (λ (z : SendBuf). record z { chunks = u.chunks; write_off = u.write_off }) p.rest;
}

push_rest-Pushed :
    (s : SendBuf) (input : List ℕ) (fin : Bool)
    → s.write_off + length input < 2 ^ 64
    → Pushed s (if length input == 0 then s else push s input fin) input
push_rest-Pushed s [] fin b = Pushed-refl s
push_rest-Pushed s (x ∷ xs) fin b =
    let e : (length (x ∷ xs) == 0) ≡ false = ground arith in rw e (push-Pushed s (x ∷ xs) fin b)

pub push_chunks-Pushed :
    (fuel size : ℕ) (s : SendBuf) (input : List ℕ) (len data_len : ℕ) (fin : Bool)
    → length input ≤ fuel
    → 0 < size
    → s.write_off + length input < 2 ^ 64
    → Pushed s (push_chunks fuel size s input len data_len fin) input
unfolding push_chunks
push_chunks-Pushed zero size s [] len data_len fin h p b = Pushed-refl s
push_chunks-Pushed zero size s (x ∷ xs) len data_len fin h p b = absurd (omega arith)
push_chunks-Pushed (suc fuel) size s input len data_len fin h p b =
    elim (dec_lt size (length input)) [
      | yes q ↦
          let n : length (take size input) ≡ size = omega (arith, length-take size input) in
          let s' = push s (take size input) ((len + length (take size input) == data_len) && fin) in
          let first : Pushed s s' (take size input) =
            push-Pushed s (take size input) _ (omega (arith, n)) in
          let m : length (drop size input) ≡ length input - size = length-drop size input in
          let rest =
            push_chunks-Pushed fuel size s' (drop size input) (len + length (take size input))
              data_len fin (omega (arith, m)) p (omega (arith, m, n, first.extent)) in
          rw (lt→ltb size (length input) q) (
            subst (Pushed s _) (take-append-drop size input)
              (Pushed-trans s s' _ (take size input) (drop size input) first rest))
      | no q ↦ rw (le→ltb size (length input) (omega arith)) (push_rest-Pushed s input fin b)
    ]
