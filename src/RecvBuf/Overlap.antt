-- ===== src/RecvBuf/Overlap.antt =====
-- The loop of `write` of src/connection/stream/recv_buf.rs over the existing chunks.
use tquic.Base.{ℕ, suc, ◌+◌, ◌-◌, ◌≤◌, ◌<◌, ◌^◌, ◌≡◌, refl, ap, ◌∙◌, arith, List, [], ◌∷◌, ◌++◌}
use tquic.Base.{ltb, true, if◌then◌else◌, get_elem?, ◌⊎◌, inl, inr}
use tquic.Base.{le→leb, length-take, length-drop}
use mathlib.Core.Path.{subst}
use tquic.RangeBuf.{RangeBuf, len, advance, split_off}
use tquic.RecvBuf.{
  Entries, Look, leave, duplicate, pass, cut_front, cut_back, look, Scan, gone, kept, scan,
}
use tquic.RecvBuf.Chunks.{Chain, Clear, between, held, buf_at, get_elem?-drop, get_elem?-take}

abbrev pub end : RangeBuf → ℕ
end b = b.off + len b

-- `p` is a part of `b`, with the bytes of `b`.
pub record IsPart (b p : RangeBuf) : Type 0 where
  pub after : b.off ≤ p.off
  pub before : end p ≤ end b
  pub bytes : (x : ℕ) → p.off ≤ x → x < end p → buf_at p x ≡ buf_at b x

pub IsPart-refl : (b : RangeBuf) → IsPart b b
IsPart-refl b = record { after = omega arith; before = omega arith; bytes = λ x h k. refl }

pub IsPart-trans : (b p q : RangeBuf) → IsPart b p → IsPart p q → IsPart b q
IsPart-trans b p q u v = record {
  after = omega (arith, u.after, v.after);
  before = omega (arith, u.before, v.before);
  bytes = λ x h k. v.bytes x h k ∙ u.bytes x (omega (arith, v.after)) (omega (arith, v.before));
}

module _ (b : RangeBuf) (n : ℕ) (h : n ≤ len b) (w : end b < 2 ^ 63) where
  pub advance-off : ((advance b n).off ≡ b.off + n) × (end (advance b n) ≡ end b)
  advance-off = omega (arith, length-drop n b.bytes)

  pub advance-IsPart : IsPart b (advance b n)
  advance-IsPart = record {
    after = omega (arith, advance-off);
    before = omega (arith, advance-off);
    bytes = λ x p q. part x p q (omega (arith, advance-off));
  }
    where
      part :
          (x : ℕ)
          → (advance b n).off ≤ x
          → x < end (advance b n)
          → b.off + n ≤ x
          → buf_at (advance b n) x ≡ buf_at b x
      part x p q u =
          let e : n + (x - (advance b n).off) ≡ x - b.off = omega (arith, advance-off) in
          rw (le→leb (advance b n).off x p, le→leb b.off x (omega arith))
            (get_elem?-drop n b.bytes (x - (advance b n).off) ∙ ap (get_elem? b.bytes) e)

  pub front-IsPart : IsPart b (split_off b n).0 × (end (split_off b n).0 ≡ b.off + n)
  front-IsPart = (
    record {
      after = omega arith;
      before = omega (arith, length-take n b.bytes);
      bytes = λ x p q.
          rw (le→leb b.off x p)
            (get_elem?-take n b.bytes (x - b.off) (omega (arith, length-take n b.bytes)));
    },
    omega (arith, length-take n b.bytes),
  )

-- The number of chunks that begin behind `o`.
unfoldable pub ahead : Entries → ℕ → ℕ
ahead [] o = 0
ahead ((k, b) ∷ r) o = if ltb o b.off then suc (ahead r o) else ahead r o

pub ahead-anti : (s : Entries) (o o' : ℕ) → o ≤ o' → ahead s o' ≤ ahead s o
unfolding ahead
ahead-anti [] o o' h = omega arith
ahead-anti ((k, b) ∷ r) o o' h = ground (arith, ahead-anti r o o' h)

-- What is left for another round: `q`, from the end of `p` on.
pub record Later (s : Entries) (buf p q : RangeBuf) : Type 0 where
  pub part : IsPart buf q
  pub joins : q.off ≡ end p
  pub reaches : end q ≡ end buf
  pub some_left : end p < end buf
  pub closer : ahead s q.off < ahead s buf.off

-- What the loop finds out about `buf`.
pub record Kept (s : Entries) (buf p : RangeBuf) : Type 0 where
  pub part : IsPart buf p
  pub filled : 0 < len buf → 0 < len p
  pub seen : (x : ℕ) → between buf.off p.off x ≡ true → held s x ≡ true
  pub clear : Clear s p.off (end p)

-- Some chunk ends at `e` or later.
abbrev pub EndsBehind : Entries → ℕ → Type 0
EndsBehind [] e = ⊥
EndsBehind ((k, b) ∷ r) e = (e ≤ k) ⊎ EndsBehind r e

abbrev pub Scanned : Entries → RangeBuf → List RangeBuf → Scan → Type 0
Scanned s buf tmp (gone tmp') =
    (tmp' ≡ tmp)
    × EndsBehind s (end buf)
    × ((x : ℕ) → between buf.off (end buf) x ≡ true → held s x ≡ true)
Scanned s buf tmp (kept p tmp') =
    Kept s buf p
    × (((tmp' ≡ tmp) × (end p ≡ end buf))
        ⊎ ((q : RangeBuf) × (tmp' ≡ tmp ++ (q ∷ [])) × Later s buf p q))

abbrev Looked : RangeBuf → RangeBuf → Look → Type 0
Looked b buf leave = end buf < b.off
Looked b buf duplicate = (b.off ≤ buf.off) × (end buf ≤ end b)
Looked b buf pass = ((end b ≤ buf.off) × (end b < end buf)) ⊎ (end buf ≤ b.off)
Looked b buf (cut_front n) =
    (b.off ≤ buf.off) × (buf.off + n ≡ end b) × (buf.off < end b) × (end b < end buf)
Looked b buf (cut_back n) = (buf.off + n ≡ b.off) × (buf.off < b.off) × (b.off < end buf)

look-Looked :
    (b buf : RangeBuf)
    → end b < 2 ^ 63
    → end buf < 2 ^ 63
    → (l : Look) → look b buf ≡ l
    → Looked b buf l
unfolding look
look-Looked b buf h k leave e = ground arith
look-Looked b buf h k duplicate e = ground arith
look-Looked b buf h k pass e = ground arith
look-Looked b buf h k (cut_front n) e = ground arith
look-Looked b buf h k (cut_back n) e = ground arith

pub Clear-above : (lo : ℕ) (s : Entries) (o e : ℕ) → Chain lo s → e ≤ lo → Clear s o e
Clear-above lo [] o e c h = tt
Clear-above lo ((k, b) ∷ r) o e c h =
    (inr (omega (arith, c), omega (arith, c)), Clear-above k r o e c.4 (omega (arith, c)))

-- Chunks from the end of a buffer that is not empty on leave it as it is.
scan_past :
    (lo : ℕ) (s : Entries) (buf : RangeBuf) (tmp : List RangeBuf)
    → Chain lo s
    → 0 < len buf
    → end buf ≤ lo
    → end buf < 2 ^ 63
    → scan s buf tmp ≡ kept buf tmp
unfolding scan
scan_past lo [] buf tmp c h k w = refl
scan_past lo ((a, b) ∷ r) buf tmp c h k w =
    by_look (scan_past a r buf tmp c.4 h (omega (arith, c)) w) (look b buf) refl
  where
    by_look :
        scan r buf tmp ≡ kept buf tmp
        → (l : Look) → look b buf ≡ l
        → scan ((a, b) ∷ r) buf tmp ≡ kept buf tmp
    by_look ih leave e = rw (e, scan) refl
    by_look ih duplicate e =
        absurd (omega (arith, c, look-Looked b buf (omega (arith, c)) w duplicate e))
    by_look ih pass e = rw (e, scan) ih
    by_look ih (cut_front n) e =
        absurd (omega (arith, c, look-Looked b buf (omega (arith, c)) w (cut_front n) e))
    by_look ih (cut_back n) e =
        absurd (omega (arith, c, look-Looked b buf (omega (arith, c)) w (cut_back n) e))

-- One chunk, on what the loop finds out from the rest.
module _ (k : ℕ) (b : RangeBuf) (r : Entries) (buf : RangeBuf) (tmp : List RangeBuf)
    (key : end b ≡ k) (small : k < 2 ^ 63) (chain : Chain k r) (w : end buf < 2 ^ 63) where
  abbrev whole : Entries
  whole = (k, b) ∷ r

  leave-Scanned : Looked b buf leave → b.off ≤ k → Scanned whole buf tmp (kept buf tmp)
  leave-Scanned l h = (
    record {
      part = IsPart-refl buf;
      filled = λ p. p;
      seen = λ x p. absurd (ground arith);
      clear = (
        inr (omega (arith, l), omega (arith, l)),
        Clear-above k r buf.off (end buf) chain (omega (arith, l)),
      );
    },
    inl (refl, refl),
  )

  duplicate-Scanned : Looked b buf duplicate → Scanned whole buf tmp (gone tmp)
  duplicate-Scanned l = (refl, inl (omega (arith, l)), λ x p. unfold held in ground (arith, l))

  clears :
      {p : RangeBuf}
      → Kept r buf p
      → Looked b buf pass
      → ((k ≤ p.off) × (k < end p)) ⊎ ((end p ≤ b.off) × (end p ≤ k))
  clears u (inl (h, j)) = inl (omega (arith, u.part.after), ground (arith, u.part.after, u.filled))
  clears u (inr h) = inr (omega (arith, u.part.before), omega (arith, u.part.before))

  later : {p q : RangeBuf} → Later r buf p q → Later whole buf p q
  later v = record {
    part = v.part;
    joins = v.joins;
    reaches = v.reaches;
    some_left = v.some_left;
    closer = unfold ahead in ground (arith, v.closer, v.part.after);
  }

  pass-Scanned : Looked b buf pass → (o : Scan) → Scanned r buf tmp o → Scanned whole buf tmp o
  pass-Scanned l (gone t) (e, m, h) = (e, inr m, λ x p. unfold held in ground (arith, h x))
  pass-Scanned l (kept p t) (u, v) = (
    record {
      part = u.part;
      filled = u.filled;
      seen = λ x p. unfold held in ground (arith, u.seen x);
      clear = (clears u l, u.clear);
    },
    elim v [ inl e ↦ inl e | inr (q, e, v') ↦ inr (q, e, later v') ],
  )

  module _ (n : ℕ) (l : Looked b buf (cut_front n)) where
    abbrev rest_of : RangeBuf
    rest_of = advance buf n

    front_off : (rest_of.off ≡ k) × (end rest_of ≡ end buf)
    front_off = let (x, y) = advance-off buf n (omega (arith, l)) w in (omega (arith, x, l), y)

    later_front : {p q : RangeBuf} → Later r rest_of p q → Later whole buf p q
    later_front {q = q} v = record {
      part = IsPart-trans buf rest_of q (advance-IsPart buf n (omega (arith, l)) w) v.part;
      joins = v.joins;
      reaches = omega (arith, v.reaches, front_off);
      some_left = omega (arith, v.some_left, front_off);
      closer =
          unfold ahead in
          ground (arith, v.closer, v.part.after, front_off, l, ahead-anti r buf.off rest_of.off);
    }

    front-Scanned : (o : Scan) → Scanned r rest_of tmp o → Scanned whole buf tmp o
    front-Scanned (gone t) (e, m, h) = (
      e,
      inr (subst (EndsBehind r) front_off.1 m),
      λ x p. unfold held in ground (arith, h x, front_off, l),
    )
    front-Scanned (kept p t) (u, v) = (
      record {
        part = IsPart-trans buf rest_of p (advance-IsPart buf n (omega (arith, l)) w) u.part;
        filled = λ j. u.filled (omega (arith, front_off, l));
        seen = λ x p. unfold held in ground (arith, u.seen x, front_off, l);
        clear = (
          inl (
            omega (arith, u.part.after, front_off),
            omega (arith, u.part.after, front_off, u.filled (omega (arith, front_off, l))),
          ),
          u.clear,
        );
      },
      elim v [
        | inl (e, f) ↦ inl (e, omega (arith, f, front_off))
        | inr (q, e, v') ↦ inr (q, e, later_front v')
      ],
    )

  -- The front of a buffer that reaches over the beginning of the chunk is kept.
  back-Scanned :
      (n : ℕ)
      → Looked b buf (cut_back n)
      → let (p, q) = split_off buf n in Scanned whole buf tmp (kept p (tmp ++ (q ∷ [])))
  back-Scanned n l =
      let (u, e) = front-IsPart buf n (omega (arith, l)) w in
      let f = advance-off buf n (omega (arith, l)) w in
      let g = advance-IsPart buf n (omega (arith, l)) w in
      (
        record {
          part = u;
          filled = λ h. omega (arith, e, l);
          seen = λ x p. absurd (ground arith);
          clear = (
            inr (omega (arith, e, l), omega (arith, e, l)),
            Clear-above k r buf.off _ chain (omega (arith, e, l)),
          );
        },
        inr (
          _,
          refl,
          record {
            part = record { after = g.after; before = g.before; bytes = g.bytes };
            joins = omega (arith, f, e);
            reaches = f.1;
            some_left = omega (arith, e, l);
            closer = unfold ahead in ground (arith, f, l, ahead-anti r buf.off (buf.off + n));
          },
        ),
      )

pub scan-Scanned :
    (lo : ℕ) (s : Entries) (buf : RangeBuf) (tmp : List RangeBuf)
    → Chain lo s
    → end buf < 2 ^ 63
    → Scanned s buf tmp (scan s buf tmp)
unfolding scan
scan-Scanned lo [] buf tmp c w = (
  record {
    part = IsPart-refl buf;
    filled = λ p. p;
    seen = λ x p. absurd (ground arith);
    clear = tt;
  },
  inl (refl, refl),
)
scan-Scanned lo ((k, b) ∷ r) buf tmp c w =
    by_look (look b buf) refl (scan-Scanned k r buf tmp c.4 w)
      (λ n u. scan-Scanned k r (advance buf n) tmp c.4 u)
  where
    small : k < 2 ^ 63
    small = omega (arith, c)

    key : end b ≡ k
    key = c.1

    by_look :
        (l : Look)
        → look b buf ≡ l
        → Scanned r buf tmp (scan r buf tmp)
        → ((n : ℕ)
            → end (advance buf n) < 2 ^ 63
            → Scanned r (advance buf n) tmp (scan r (advance buf n) tmp))
        → Scanned ((k, b) ∷ r) buf tmp (scan ((k, b) ∷ r) buf tmp)
    by_look leave e same front =
        rw (e, scan)
          (leave-Scanned k b r buf tmp key small c.4 w
            (look-Looked b buf (omega (arith, c)) w leave e) (omega (arith, c)))
    by_look duplicate e same front =
        rw (e, scan)
          (duplicate-Scanned k b r buf tmp key small c.4 w
            (look-Looked b buf (omega (arith, c)) w duplicate e))
    by_look pass e same front =
        rw (e, scan)
          (pass-Scanned k b r buf tmp key small c.4 w
            (look-Looked b buf (omega (arith, c)) w pass e) _ same)
    by_look (cut_front n) e same front =
        let l = look-Looked b buf (omega (arith, c)) w (cut_front n) e in
        rw (e, scan)
          (front-Scanned k b r buf tmp key small c.4 w n l _
            (front n (omega (arith, front_off k b r buf tmp key small c.4 w n l))))
    by_look (cut_back n) e same front =
        let l = look-Looked b buf (omega (arith, c)) w (cut_back n) e in
        let f = front-IsPart buf n (omega (arith, l)) w in
        rw
          (
            e,
            scan,
            scan_past k r (split_off buf n).0 (tmp ++ ((split_off buf n).1 ∷ [])) c.4
                (omega (arith, f, l)) (omega (arith, f, l, key)) (omega (arith, f, l)),
          )
          (back-Scanned k b r buf tmp key small c.4 w n l)
