-- ===== src/Frame/AckRanges.antt =====
-- The ranges of an ACK frame in src/frame.rs: the blocks from the last one down are inserted in front.
use tquic.Base.{ℕ, suc, ◌+◌, ◌-◌, ◌^◌, ◌≤◌, ◌<◌, ◌≡◌, refl, ap, ◌∙◌, arith, Option, none, some}
use tquic.Base.{
  List, [], ◌∷◌, ◌++◌, length, max, ltb, if◌then◌else◌, sub64, lt→ltb, le→ltb, le→leb, lt→leb,
}
use tquic.Error.{ok}
use tquic.Ranges as R
use tquic.Ranges.{RangeSet, insert}
use tquic.Ranges.Map.{Entries, bt_remove, bt_insert, prev_to, next_to}
use tquic.Ranges.Order.{IsSorted}
use tquic.Frame.{ack_blocks, backwards}
use tquic.Frame.Parse.{parse_blocks}
use tquic.Frame.Image.{bytes_of, read_varint-bytes_of, image, image_of}

-- Ranges from `hi` down, none of which touch.
abbrev pub IsDescending : ℕ → Entries → Type 0
IsDescending hi [] = Unit {0}
IsDescending hi ((a, b) ∷ r) = (b < hi) × (a < b) × IsDescending a r

abbrev pub IsUnder : ℕ → Entries → Type 0
IsUnder n [] = Unit {0}
IsUnder n ((a, b) ∷ r) = (b ≤ n) × IsUnder n r

-- The first range begins behind `n`.
abbrev pub IsAbove : ℕ → Entries → Type 0
IsAbove n [] = Unit {0}
IsAbove n ((a, b) ∷ r) = n < a

pub IsDescending-raise : (lo hi : ℕ) (t : Entries) → lo ≤ hi → IsDescending lo t → IsDescending hi t
IsDescending-raise lo hi [] h d = tt
IsDescending-raise lo hi ((a, b) ∷ r) h d = (omega (arith, d.0), d.1, d.2)

pub backwards-IsDescending :
    (lo hi : ℕ) (s t : Entries)
    → IsSorted lo s
    → IsUnder hi s
    → IsDescending lo t
    → lo ≤ hi + 1
    → IsDescending (hi + 1) (backwards s t)
unfolding backwards
backwards-IsDescending lo hi [] t v u d h = IsDescending-raise lo (hi + 1) t h d
backwards-IsDescending lo hi ((a, b) ∷ r) t v u d h =
    backwards-IsDescending (b + 1) hi r ((a, b) ∷ t) v.2 u.1
      (omega arith, v.1, IsDescending-raise lo a t v.0 d) (omega (arith, u.0))

-- Going back twice is going forth.
pub backwards_twice : (s t u : Entries) → backwards (backwards s t) u ≡ backwards t (s ++ u)
unfolding backwards
backwards_twice [] t u = refl
backwards_twice ((a, b) ∷ r) t u = backwards_twice r ((a, b) ∷ t) u

pub length-backwards : (s t : Entries) → length (backwards s t) ≡ length s + length t
unfolding backwards
length-backwards [] t = omega arith
length-backwards ((a, b) ∷ r) t = omega (arith, length-backwards r ((a, b) ∷ t))

-- `insert` below the first range, with room for one more.
pub absorb_front :
    (fuel c d a b : ℕ) (r : Entries)
    → a ≤ c
    → b < c
    → R.absorb (suc fuel) ((c, d) ∷ r) a b ≡ ((c, d) ∷ r, b)
unfolding R.absorb next_to
absorb_front fuel c d a b r h k =
    ap after (ap (λ q. if q then some (c, d) else next_to r a) (le→leb a c h))
    ∙ ap (λ q. if q then ((c, d) ∷ r, b) else R.absorb fuel (bt_remove ((c, d) ∷ r) c) a (max d b))
        (lt→ltb b c k)
  where
    after : Option (ℕ × ℕ) → Entries × ℕ
    after none = ((c, d) ∷ r, b)
    after (some (x, y)) =
        if ltb b x then ((c, d) ∷ r, b) else R.absorb fuel (bt_remove ((c, d) ∷ r) x) a (max y b)

pub place_front :
    (n c d a b : ℕ) (r : Entries)
    → length r + 1 < n
    → a < c
    → R.place n ((c, d) ∷ r, b) a ≡ (a, b) ∷ (c, d) ∷ r
unfolding R.place bt_insert
place_front n c d a b r h k = rw (lt→leb n (suc (length r)) (omega arith), lt→ltb a c k) refl

pub insert_front :
    (t : Entries) (n a b : ℕ)
    → length t < n
    → a < b
    → IsAbove b t
    → insert (record { set = t; capacity = n }) a b ≡ record { set = (a, b) ∷ t; capacity = n }
unfolding R.insert R.insert_next R.insert_from R.place R.absorb bt_insert prev_to next_to
insert_front [] n a b k h f = rw (lt→leb b a h, lt→leb n 0 k) refl
insert_front ((c, d) ∷ r) n a b k h f =
    let l : insert (record { set = (c, d) ∷ r; capacity = n }) a b
        ≡ R.insert_from (record { set = (c, d) ∷ r; capacity = n }) ((c, d) ∷ r) a b =
      rw (lt→leb b a h, lt→leb c a (omega arith)) refl in
    l
    ∙ ap (λ z. record { set = R.place n z a; capacity = n })
        (absorb_front (length r) c d a b r (omega arith) f)
    ∙ ap (λ z. record { set = z; capacity = n })
        (place_front n c d a b r (omega arith) (omega arith))

-- The blocks below `smallest` are read back, and end up in front of the ranges that were read.
pub blocks_back :
    (rs t : Entries) (n smallest e : ℕ) (rest : List ℕ)
    → smallest < 2 ^ 62
    → IsDescending smallest rs
    → length t + 1 + length rs < n
    → parse_blocks
        (length rs)
        smallest
        (record { set = (smallest, e) ∷ t; capacity = n })
        (image (ack_blocks smallest rs) rest)
      ≡ ok (record { set = backwards rs ((smallest, e) ∷ t); capacity = n }, rest)
unfolding parse_blocks image image_of ack_blocks backwards
blocks_back [] t n smallest e rest w d k = refl
blocks_back ((a, b) ∷ rs) t n smallest e rest w d k =
    let gap : sub64 (sub64 smallest b) 1 ≡ smallest - b - 1 = omega (arith, d.0) in
    let len : sub64 (sub64 b 1) a ≡ b - 1 - a = omega (arith, d.0, d.1) in
    let big : smallest - (smallest - b - 1) - 2 ≡ b - 1 = omega (arith, d.0, d.1) in
    let small : b - 1 - (b - 1 - a) ≡ a = omega (arith, d.1) in
    let one : b - 1 + 1 ≡ b = omega (arith, d.1) in
    rw
      (
        gap,
        len,
        read_varint-bytes_of (smallest - b - 1)
            (bytes_of (b - 1 - a) ++ image (ack_blocks a rs) rest) (omega arith),
        le→ltb smallest (2 + (smallest - b - 1)) (omega (arith, d.0, d.1)),
        read_varint-bytes_of (b - 1 - a) (image (ack_blocks a rs) rest) (omega arith),
        big,
        le→ltb (b - 1) (b - 1 - a) (omega arith),
        small,
        one,
        insert_front ((smallest, e) ∷ t) n a b (omega arith) d.1 d.0,
      )
      (blocks_back rs ((smallest, e) ∷ t) n a b rest (omega (arith, d.0, d.1)) d.2 (omega arith))
