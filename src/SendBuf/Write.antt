-- ===== src/SendBuf/Write.antt =====
-- `write` of src/connection/stream/send_buf.rs: what joins the queue.
use tquic.Base.{ℕ, ◌+◌, ◌-◌, ◌≤◌, ◌<◌, ◌^◌, ◌≡◌, refl, Bool, false, ◌&&◌, arith, ap, sym, ◌∙◌}
use tquic.Base.{
  List, [], ◌∷◌, ◌++◌, length, take, min, none, some, add64, if◌then◌else◌, sub64, le→leb, lt→leb,
  ◌==◌, length-take,
}
use native.Mathlib.Decide.{dec_le}
use mathlib.Core.List.{append-nil}
use tquic.Error.{ok, err, final_size_error}
use tquic.SendBuf.{SendBuf, write, write_within, write_fitting, capacity, push_chunks}
use tquic.SendBuf.Push.{content, Joined, Pushed, push_chunks-Pushed}

-- What `write` promises of the state `t` after `n` bytes of `input` were taken.
pub record Wrote (s t : SendBuf) (input : List ℕ) (fin : Bool) (n : ℕ) : Type 0 where
  pub count : n ≡ min (length input) (s.max_data - s.write_off)
  pub bytes : content t.chunks ≡ content s.chunks ++ take n input
  pub joined : (x : ℕ) → Joined x s.chunks s.write_off → Joined x t.chunks t.write_off
  pub extent : t.write_off ≡ s.write_off + n
  pub unacked : t.unacked_len ≡ s.unacked_len + n
  pub final : t.fin_off ≡ (if fin && (n == length input) then some t.write_off else none)
  pub rest : t ≡ record s {
    chunks = t.chunks;
    write_off = t.write_off;
    unacked_len = t.unacked_len;
    fin_off = t.fin_off;
  }

-- The same for input that fits, with the final offset `m` that a set fin flag leads to.
record Fitted (s t : SendBuf) (input : List ℕ) (fin : Bool) (m : ℕ) : Type 0 where
  bytes : content t.chunks ≡ content s.chunks ++ input
  joined : (x : ℕ) → Joined x s.chunks s.write_off → Joined x t.chunks t.write_off
  extent : t.write_off ≡ s.write_off + length input
  unacked : t.unacked_len ≡ s.unacked_len + length input
  final : t.fin_off ≡ (if fin then some m else s.fin_off)
  rest : t ≡ record s {
    chunks = t.chunks;
    write_off = t.write_off;
    unacked_len = t.unacked_len;
    fin_off = t.fin_off;
  }

write_fitting-Fitted :
    (size : ℕ) (s : SendBuf) (input : List ℕ) (fin : Bool) (m : ℕ)
    → 0 < size
    → s.write_off + length input < 2 ^ 64
    → s.unacked_len + length input < 2 ^ 64
    → (t : SendBuf) × (write_fitting size s input fin m ≡ ok (length input, t))
      × Fitted s t input fin m
unfolding write_fitting
write_fitting-Fitted size s [] fin m p h u = (
  record s { fin_off = if fin then some m else s.fin_off },
  refl,
  record {
    bytes = sym (append-nil (content s.chunks));
    joined = λ x j. j;
    extent = omega arith;
    unacked = omega arith;
    final = refl;
    rest = refl;
  },
)
write_fitting-Fitted size s (x ∷ xs) fin m p h u =
    let input = x ∷ xs in
    let s1 : SendBuf = record s { fin_off = if fin then some m else s.fin_off } in
    let s2 : SendBuf = push_chunks (length input) size s1 input 0 (length input) fin in
    let w : Pushed s1 s2 input =
      push_chunks-Pushed (length input) size s1 input 0 (length input) fin (omega arith) p h in
    let same : s2.unacked_len ≡ s.unacked_len = ap (λ (z : SendBuf). z.unacked_len) w.rest in
    let some_input : (length input == 0) ≡ false = ground arith in
    (
      record s2 { unacked_len = add64 s2.unacked_len (length input) },
      rw some_input refl,
      record {
        bytes = w.bytes;
        joined = w.joined;
        extent = w.extent;
        unacked = omega (arith, same);
        final = ap (λ (z : SendBuf). z.fin_off) w.rest;
        rest =
            ap
              (λ (z : SendBuf). record z {
                unacked_len = add64 s2.unacked_len (length input);
                fin_off = s2.fin_off;
              })
              w.rest;
      },
    )

module _ (size : ℕ) (s : SendBuf) (input : List ℕ) (fin : Bool) (e : s.error ≡ none)
    (f : s.fin_off ≡ none) (lim : s.write_off ≤ s.max_data) (small : s.max_data < 2 ^ 62)
    (short : length input < 2 ^ 62) where
  cap : sub64 s.max_data s.write_off ≡ s.max_data - s.write_off
  cap = omega arith

  end : add64 s.write_off (length input) ≡ s.write_off + length input
  end = omega arith

  writes_all :
      length input ≤ s.max_data - s.write_off
      → write size s input fin ≡ write_fitting size s input fin (s.write_off + length input)
  unfolding write capacity write_within
  writes_all h = rw (e, cap, end, f, le→leb (length input) (s.max_data - s.write_off) h) refl

  writes_part :
      s.max_data - s.write_off < length input
      → write size s input fin
        ≡ write_fitting size s
            (take (s.max_data - s.write_off) input)
            false
            (s.write_off + length input)
  unfolding write capacity write_within
  writes_part h = rw (e, cap, end, f, lt→leb (length input) (s.max_data - s.write_off) h) refl

take_all : (xs : List ℕ) → take (length xs) xs ≡ xs
take_all [] = refl
take_all (x ∷ xs) = ap (λ t. x ∷ t) (take_all xs)

module _ (s t : SendBuf) (input : List ℕ) (fin : Bool) (f : s.fin_off ≡ none) where
  all-Wrote :
      length input ≤ s.max_data - s.write_off
      → Fitted s t input fin (s.write_off + length input)
      → Wrote s t input fin (length input)
  all-Wrote h w = record {
    count = omega arith;
    bytes = rw (take_all input) w.bytes;
    joined = w.joined;
    extent = w.extent;
    unacked = w.unacked;
    final = ground (arith, w.final, f, w.extent);
    rest = w.rest;
  }

  part-Wrote :
      s.max_data - s.write_off < length input
      → Fitted s t (take (s.max_data - s.write_off) input) false (s.write_off + length input)
      → Wrote s t input fin (s.max_data - s.write_off)
  part-Wrote h w =
      let n = length-take (s.max_data - s.write_off) input in
      record {
        count = omega arith;
        bytes = w.bytes;
        joined = w.joined;
        extent = omega (arith, w.extent, n);
        unacked = omega (arith, w.unacked, n);
        final = ground (arith, w.final, f);
        rest = w.rest;
      }

-- On a stream that was not stopped and whose final size is not set, with offsets below 2^62 and the
-- limit not passed, `write` with chunks of any size takes as many bytes as the limit allows: it appends
-- them to the queue, whose chunks stay joined, and counts them; the final size is set exactly when the
-- fin flag is given and all bytes are taken; nothing else changes.
pub write-Wrote :
    (size : ℕ) (s : SendBuf) (input : List ℕ) (fin : Bool)
    → 0 < size
    → s.error ≡ none
    → s.fin_off ≡ none
    → s.write_off ≤ s.max_data
    → s.max_data < 2 ^ 62
    → s.unacked_len ≤ s.write_off
    → length input < 2 ^ 62
    → (n : ℕ) × (t : SendBuf) × (write size s input fin ≡ ok (n, t)) × Wrote s t input fin n
write-Wrote size s input fin p e f lim small u short =
    elim (dec_le (length input) (s.max_data - s.write_off)) [
      | yes h ↦
          let all = writes_all size s input fin e f lim small short h in
          let (t, ran, w) =
            write_fitting-Fitted size s input fin (s.write_off + length input) p (omega arith)
              (omega arith) in
          (length input, t, all ∙ ran, all-Wrote s t input fin f h w)
      | no h ↦
          let part = writes_part size s input fin e f lim small short (omega arith) in
          let short' = length-take (s.max_data - s.write_off) input in
          let (t, ran, w) =
            write_fitting-Fitted size s (take (s.max_data - s.write_off) input) false
              (s.write_off + length input) p (omega (arith, short')) (omega (arith, short')) in
          (
            s.max_data - s.write_off,
            t,
            part ∙ ran ∙ ap (λ n. ok (n, t)) (omega (arith, short')),
            part-Wrote s t input fin f (omega arith) w,
          )
    ]

-- Once the final size is set and all is written, on a stream that was not stopped, `write` takes no
-- byte: it answers FINAL_SIZE_ERROR to any data, and to no data unless the fin flag is given again.
pub write_finished :
    (size : ℕ) (s : SendBuf) (input : List ℕ) (fin : Bool)
    → s.error ≡ none
    → s.fin_off ≡ some s.write_off
    → s.write_off < 2 ^ 62
    → length input < 2 ^ 62
    → write size s input fin ≡ (
        if (length input == 0) && fin
        then ok (0, record s { fin_off = some s.write_off })
        else err final_size_error)
unfolding write write_within write_fitting capacity
write_finished size s [] fin e f small short = ground (arith, e, f)
write_finished size s (x ∷ xs) fin e f small short = ground (arith, e, f)
