-- ===== src/RecvBuf/Fill.antt =====
-- The loop of `write` of src/connection/stream/recv_buf.rs: the gaps are filled, what is held stays.
use tquic.Base.{ℕ, ◌≤◌, ◌<◌, ◌^◌, ◌≡◌, refl, ◌∙◌, arith, List, [], ◌∷◌, max}
use tquic.Base.{ltb, Bool, true, false, ◌||◌, Option, none, if◌then◌else◌, inl, inr}
use tquic.Base.{lt→ltb, le→ltb, Bool-cases}
use native.Mathlib.Decide.{dec_lt}
use tquic.RangeBuf.{RangeBuf, max_off, is_empty}
use tquic.RecvBuf.{Entries, RecvBuf, Scan, gone, kept, scan_from, range_from, store, bt_insert}
use tquic.RecvBuf.Chunks.{
  Chain, Clear, between, held, buf_at, byte_at, bt_insert-Chain, held-bt_insert, byte_at-bt_insert,
}
use tquic.RecvBuf.Overlap.{end, IsPart-refl, ahead, Later, Kept, EndsBehind, Scanned, scan-Scanned}

abbrev pub Below : Entries → ℕ → Type 0
Below [] n = Unit {0}
Below ((k, b) ∷ r) n = (k ≤ n) × Below r n

-- The chunks are in order between what was read and what was received.
pub record IsValid (s : RecvBuf) : Type 0 where
  pub chain : Chain s.read_off s.chunks
  pub below : Below s.chunks s.recv_off
  pub order : s.read_off ≤ s.recv_off
  pub small : s.recv_off < 2 ^ 63

pub Chain-weaken : (lo lo' : ℕ) (s : Entries) → lo' ≤ lo → Chain lo s → Chain lo' s
Chain-weaken lo lo' [] h c = tt
Chain-weaken lo lo' ((k, b) ∷ r) h c = (omega (arith, c), c.1, c.2, c.3, c.4)

range_from-Chain : (lo : ℕ) (s : Entries) (o : ℕ) → Chain lo s → Chain lo (range_from s o)
unfolding range_from
range_from-Chain lo [] o c = tt
range_from-Chain lo ((k, b) ∷ r) o c =
    ground (arith, Chain-weaken k lo (range_from r o), range_from-Chain k r o c.4)

held-range_from : (s : Entries) (o x : ℕ) → held (range_from s o) x ≡ true → held s x ≡ true
unfolding range_from held
held-range_from [] o x h = h
held-range_from ((k, b) ∷ r) o x h = ground (arith, held-range_from r o x)

Clear-range_from :
    (s : Entries) (o p e : ℕ) → o ≤ p → o ≤ e → Clear (range_from s o) p e → Clear s p e
unfolding range_from
Clear-range_from [] o p e h g c = c
Clear-range_from ((k, b) ∷ r) o p e h g c = ground (arith, Clear-range_from r o p e h g)

ahead-range_from :
    (lo : ℕ) (s : Entries) (o x : ℕ) → Chain lo s → o ≤ x → ahead (range_from s o) x ≡ ahead s x
unfolding range_from ahead
ahead-range_from lo [] o x c h = refl
ahead-range_from lo ((k, b) ∷ r) o x c h =
    let ih : ahead (range_from r o) x ≡ ahead r x = ahead-range_from k r o x c.4 h in
    elim (dec_lt k o) [
      | yes p ↦
          let q : ltb x b.off ≡ false = le→ltb x b.off (omega (arith, c)) in rw (lt→ltb k o p, q) ih
      | no p ↦ rw (le→ltb k o (omega arith)) refl
    ]

EndsBehind-range_from : (s : Entries) (o e : ℕ) → EndsBehind (range_from s o) e → EndsBehind s e
unfolding range_from
EndsBehind-range_from [] o e h = h
EndsBehind-range_from ((k, b) ∷ r) o e h = ground (arith, EndsBehind-range_from r o e)

EndsBehind-le : (s : Entries) (e n : ℕ) → EndsBehind s e → Below s n → e ≤ n
EndsBehind-le [] e n h b = absurd h
EndsBehind-le ((k, b) ∷ r) e n (inl h) w = omega (arith, w)
EndsBehind-le ((k, b) ∷ r) e n (inr h) w = EndsBehind-le r e n h w.1

Below-bt_insert :
    (s : Entries) (n m e : ℕ) (v : RangeBuf) → Below s n → n ≤ m → e ≤ m → Below (bt_insert s e v) m
unfolding bt_insert
Below-bt_insert [] n m e v b h k = omega arith
Below-bt_insert ((a, c) ∷ r) n m e v b h k =
    ground (arith, Below-bt_insert r n m e v b.1, Below-weaken r n m b.1)
  where
    Below-weaken : (r : Entries) (n m : ℕ) → Below r n → n ≤ m → Below r m
    Below-weaken [] n m b h = tt
    Below-weaken ((k, c) ∷ r) n m b h = (omega (arith, b), Below-weaken r n m b.1 h)

pub ahead-bt_insert :
    (s : Entries) (e o : ℕ) (v : RangeBuf) → v.off ≤ o → ahead (bt_insert s e v) o ≤ ahead s o
unfolding bt_insert ahead
ahead-bt_insert [] e o v h = ground arith
ahead-bt_insert ((k, b) ∷ r) e o v h = ground (arith, ahead-bt_insert r e o v h)

Clear-Below : (s : Entries) (n o e : ℕ) → Below s n → n ≤ o → o < e → Clear s o e
Clear-Below [] n o e b h k = tt
Clear-Below ((a, c) ∷ r) n o e b h k =
    (inl (omega (arith, b), omega (arith, b)), Clear-Below r n o e b.1 h k)

-- The scan of all chunks, or of none behind `recv_off`.
lifted :
    (lo : ℕ) (s : Entries) (buf : RangeBuf) (o : Scan)
    → Chain lo s
    → Scanned (range_from s buf.off) buf [] o
    → Scanned s buf [] o
lifted lo s buf (gone tmp) c (e, m, h) =
    (e, EndsBehind-range_from s buf.off (end buf) m, λ x p. held-range_from s buf.off x (h x p))
lifted lo s buf (kept p tmp) c (u, v) = (
  record {
    part = u.part;
    filled = u.filled;
    seen = λ x q. held-range_from s buf.off x (u.seen x q);
    clear =
        Clear-range_from s buf.off p.off (end p) u.part.after (omega (arith, u.part.after)) u.clear;
  },
  elim v [
    | inl e ↦ inl e
    | inr (q, e, l) ↦ inr (
      q,
      e,
      record {
        part = l.part;
        joins = l.joins;
        reaches = l.reaches;
        some_left = l.some_left;
        closer = omega (
          arith,
          l.closer,
          ahead-range_from lo s buf.off buf.off c (omega arith),
          ahead-range_from lo s buf.off q.off c l.part.after,
        );
      },
    )
  ],
)

pub scan_from-Scanned :
    (s : RecvBuf) (buf : RangeBuf)
    → IsValid s
    → end buf < 2 ^ 63
    → Scanned s.chunks buf [] (scan_from s buf [])
unfolding scan_from
scan_from-Scanned s buf v w = elim (Bool-cases (ltb buf.off s.recv_off || is_empty buf)) [
  | inl e ↦ rw e (
      lifted s.read_off s.chunks buf _ v.chain
        (scan-Scanned s.read_off _ buf [] (range_from-Chain s.read_off s.chunks buf.off v.chain) w))
  | inr e ↦ rw e (
    record {
      part = IsPart-refl buf;
      filled = λ p. p;
      seen = λ x p. absurd (ground arith);
      clear =
          Clear-Below s.chunks s.recv_off buf.off (end buf) v.below (ground arith) (ground arith);
    },
    inl (refl, refl),
  )
]

Clear-held : (s : Entries) (o e x : ℕ) → Clear s o e → between o e x ≡ true → held s x ≡ false
unfolding held
Clear-held [] o e x c h = refl
Clear-held ((k, b) ∷ r) o e x c h = ground (arith, Clear-held r o e x c.1 h)

pub byte_at-held : (s : Entries) (x : ℕ) → held s x ≡ false → byte_at s x ≡ none
unfolding held byte_at
byte_at-held [] x h = refl
byte_at-held ((k, b) ∷ r) x h = ground (arith, byte_at-held r x)

-- The part `i` of a buffer `j` goes in beside what is held, `h`.
beside :
    (h i j : Bool) (old part new : Option ℕ)
    → (h ≡ false → old ≡ none)
    → (i ≡ true → h ≡ false)
    → (i ≡ true → j ≡ true)
    → (i ≡ true → part ≡ new)
    → (j ≡ true → i ≡ false → h ≡ true)
    → (if i then part else old) ≡ (if h then old else if j then new else none)
beside h i j old part new a b c d e = ground arith

-- So do two parts, `i` and then `k`.
beside_two :
    (h i j k : Bool) (old part new last : Option ℕ)
    → (h ≡ false → old ≡ none)
    → (i ≡ true → h ≡ false)
    → (i ≡ true → j ≡ true)
    → (i ≡ true → part ≡ new)
    → (k ≡ true → j ≡ true)
    → (k ≡ true → last ≡ new)
    → (j ≡ true → i ≡ false → k ≡ false → h ≡ true)
    → (if i || h then (if i then part else old) else if k then last else none)
      ≡ (if h then old else if j then new else none)
beside_two h i j k old part new last a b c d e f g = ground arith

-- What a run of the queue, begun with `buf` alone, makes of `s`.
pub record Filled (s t : RecvBuf) (buf : RangeBuf) : Type 0 where
  pub valid : IsValid t
  pub holds : (x : ℕ) → held t.chunks x ≡ (held s.chunks x || between buf.off (end buf) x)
  pub bytes :
      (x : ℕ)
      → byte_at t.chunks x ≡ (
          if held s.chunks x
          then byte_at s.chunks x
          else if between buf.off (end buf) x
          then buf_at buf x
          else none)
  pub extent : t.recv_off ≡ max s.recv_off (end buf)
  pub rest : t ≡ record s { chunks = t.chunks; recv_off = t.recv_off }

-- The state with one more chunk.
abbrev pub added : RecvBuf → RangeBuf → RecvBuf
added s p = record s { chunks = bt_insert s.chunks (end p) p; recv_off = max s.recv_off (end p) }

module _ (s : RecvBuf) (v : IsValid s) (open_still : s.shutdown ≡ false) where
  pub store_kept :
      (p : RangeBuf) (tmp : List RangeBuf)
      → end p < 2 ^ 63
      → store s (kept p tmp) ≡ (added s p, tmp)
  unfolding store
  store_kept p tmp w = let e : max_off p ≡ end p = omega arith in rw (e, open_still) refl

  module _ (buf : RangeBuf) (w : end buf < 2 ^ 63) (behind : s.read_off ≤ buf.off) where
    module _ (p : RangeBuf) (u : Kept s.chunks buf p) where
      pub added-IsValid : IsValid (added s p)
      added-IsValid = record {
        chain =
            bt_insert-Chain s.read_off s.chunks p (end p) v.chain u.clear
              (omega (arith, u.part.after)) refl (omega (arith, u.part.before));
        below =
            Below-bt_insert s.chunks s.recv_off (max s.recv_off (end p)) (end p) p v.below
              (omega arith) (omega arith);
        order = omega (arith, v.order);
        small = omega (arith, v.small, u.part.before);
      }

      -- All of the buffer is dealt with.
      pub all-Filled : end p ≡ end buf → Filled s (added s p) buf
      all-Filled e = record {
        valid = added-IsValid;
        holds = λ x. ground (
          arith,
          held-bt_insert s.read_off s.chunks p (end p) x v.chain u.clear refl,
          u.seen x,
          u.part.after,
        );
        bytes = λ x.
            byte_at-bt_insert s.read_off s.chunks p (end p) x v.chain u.clear refl
            ∙ beside (held s.chunks x) (between p.off (end p) x) (between buf.off (end buf) x) _ _ _
                (byte_at-held s.chunks x) (Clear-held s.chunks p.off (end p) x u.clear)
                (λ i. ground (arith, u.part.after))
                (λ i. u.part.bytes x (ground arith) (ground arith))
                (λ i j. ground (arith, u.seen x));
        extent = omega arith;
        rest = refl;
      }

      -- The rest of the buffer comes later.
      pub some-Filled :
          (q : RangeBuf) (t : RecvBuf)
          → Later s.chunks buf p q
          → Filled (added s p) t q
          → Filled s t buf
      some-Filled q t l f = record {
        valid = f.valid;
        holds = λ x. ground (
          arith,
          f.holds x,
          held-bt_insert s.read_off s.chunks p (end p) x v.chain u.clear refl,
          u.seen x,
          u.part.after,
          u.part.before,
          l.joins,
          l.reaches,
        );
        bytes = λ x.
            f.bytes x
            ∙ rw
                (
                  held-bt_insert s.read_off s.chunks p (end p) x v.chain u.clear refl,
                  byte_at-bt_insert s.read_off s.chunks p (end p) x v.chain u.clear refl,
                )
                (beside_two (held s.chunks x) (between p.off (end p) x)
                  (between buf.off (end buf) x) (between q.off (end q) x) _ _ _ _
                  (byte_at-held s.chunks x) (Clear-held s.chunks p.off (end p) x u.clear)
                  (λ i. ground (arith, u.part.after, u.part.before))
                  (λ i. u.part.bytes x (ground arith) (ground arith))
                  (λ i. ground (arith, l.part.after, l.part.before))
                  (λ i. l.part.bytes x (ground arith) (ground arith))
                  (λ i j k. ground (arith, u.seen x, l.joins, l.reaches)));
        extent = omega (arith, f.extent, l.reaches, u.part.before);
        rest = f.rest;
      }

    pub gone-Filled :
        EndsBehind s.chunks (end buf)
        → ((x : ℕ) → between buf.off (end buf) x ≡ true → held s.chunks x ≡ true)
        → Filled s s buf
    gone-Filled m h = record {
      valid = v;
      holds = λ x. ground (arith, h x);
      bytes = λ x.
          beside (held s.chunks x) false (between buf.off (end buf) x) (byte_at s.chunks x) none
            (buf_at buf x) (byte_at-held s.chunks x) (λ i. cc) (λ i. cc) (λ i. cc) (λ i j. h x i);
      extent = omega (arith, EndsBehind-le s.chunks (end buf) s.recv_off m v.below);
      rest = refl;
    }
