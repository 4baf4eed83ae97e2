-- ===== src/RecvBuf/Chunks.antt =====
-- The chunks of src/connection/stream/recv_buf.rs: their order, and the bytes that they hold.
use tquic.Base.{
  ℕ, zero, suc, ◌+◌, ◌-◌, ◌≤◌, ◌<◌, ◌^◌, ◌≡◌, refl, ap, ◌∙◌, arith, List, [], ◌∷◌, take, drop, ltb,
  leb,
}
use tquic.Base.{Bool, true, false, ◌&&◌, ◌||◌, Option, none, if◌then◌else◌, get_elem?, ◌⊎◌}
use mathlib.Core.Path.{subst}
use tquic.RangeBuf.{RangeBuf, len}
use tquic.RecvBuf.{Entries, bt_insert}

-- The key of the first entry is above `k`.
abbrev pub Over : ℕ → Entries → Type 0
Over k [] = Unit {0}
Over k ((a, b) ∷ r) = k < a

-- In order and disjoint, from `lo` on; the key of a chunk is its end, below 2^63.
abbrev pub Chain : ℕ → Entries → Type 0
Chain lo [] = Unit {0}
Chain lo ((k, b) ∷ r) = (lo ≤ b.off) × (b.off + len b ≡ k) × (k < 2 ^ 63) × Over k r × Chain k r

abbrev pub between : ℕ → ℕ → ℕ → Bool
between a b x = leb a x && ltb x b

-- Whether the byte at an offset is held, and that byte.
unfoldable pub held : Entries → ℕ → Bool
held [] x = false
held ((k, b) ∷ r) x = between b.off k x || held r x

abbrev pub buf_at : RangeBuf → ℕ → Option ℕ
buf_at b x = if leb b.off x then get_elem? b.bytes (x - b.off) else none

unfoldable pub byte_at : Entries → ℕ → Option ℕ
byte_at [] x = none
byte_at ((k, b) ∷ r) x = if between b.off k x then buf_at b x else byte_at r x

-- No chunk reaches into `[o, e)`; one that ends at `e` is empty.
abbrev pub Clear : Entries → ℕ → ℕ → Type 0
Clear [] o e = Unit {0}
Clear ((k, b) ∷ r) o e = (((k ≤ o) × (k < e)) ⊎ ((e ≤ b.off) × (e ≤ k))) × Clear r o e

pub held-below : (lo : ℕ) (s : Entries) (x : ℕ) → Chain lo s → x < lo → held s x ≡ false
unfolding held
held-below lo [] x c h = refl
held-below lo ((k, b) ∷ r) x c h = ground (arith, held-below k r x c.4)

Over-bt_insert :
    (k : ℕ) (s : Entries) (v : RangeBuf) (e : ℕ) → Over k s → k < e → Over k (bt_insert s e v)
unfolding bt_insert
Over-bt_insert k [] v e o h = h
Over-bt_insert k ((a, b) ∷ r) v e o h = ground arith

Chain-end : (x y : ℕ) (s : Entries) → y ≡ x → Chain y s → Chain x s
Chain-end x y s e c = subst (λ t. Chain t s) e c

Over-end : (x y : ℕ) (s : Entries) → y ≡ x → Over y s → Over x s
Over-end x y s e c = subst (λ t. Over t s) e c

pub bt_insert-Chain :
    (lo : ℕ) (s : Entries) (v : RangeBuf) (e : ℕ)
    → Chain lo s
    → Clear s v.off e
    → lo ≤ v.off
    → v.off + len v ≡ e
    → e < 2 ^ 63
    → Chain lo (bt_insert s e v)
unfolding bt_insert
bt_insert-Chain lo [] v e c f h w u = omega arith
bt_insert-Chain lo ((k, b) ∷ r) v e c f h w u = ground (
  arith,
  bt_insert-Chain k r v e c.4 f.1,
  Over-bt_insert k r v e c.3,
  Chain-end e k r,
  Over-end e k r,
)

pub held-bt_insert :
    (lo : ℕ) (s : Entries) (v : RangeBuf) (e x : ℕ)
    → Chain lo s
    → Clear s v.off e
    → v.off + len v ≡ e
    → held (bt_insert s e v) x ≡ (between v.off e x || held s x)
unfolding bt_insert held
held-bt_insert lo [] v e x c f w = refl
held-bt_insert lo ((k, b) ∷ r) v e x c f w = ground (arith, held-bt_insert k r v e x c.4 f.1 w)

pub byte_at-bt_insert :
    (lo : ℕ) (s : Entries) (v : RangeBuf) (e x : ℕ)
    → Chain lo s
    → Clear s v.off e
    → v.off + len v ≡ e
    → byte_at (bt_insert s e v) x ≡ (if between v.off e x then buf_at v x else byte_at s x)
unfolding bt_insert byte_at
byte_at-bt_insert lo [] v e x c f w = refl
byte_at-bt_insert lo ((k, b) ∷ r) v e x c f w =
    ground (arith, byte_at-bt_insert k r v e x c.4 f.1 w)

pub get_elem?-drop : (n : ℕ) (xs : List ℕ) (i : ℕ) → get_elem? (drop n xs) i ≡ get_elem? xs (n + i)
get_elem?-drop zero xs i = ap (get_elem? xs) (omega arith)
get_elem?-drop (suc n) [] i = refl
get_elem?-drop (suc n) (x ∷ xs) i =
    get_elem?-drop n xs i
    ∙ ap (get_elem? (x ∷ xs)) (let e : suc (n + i) ≡ suc n + i = omega arith in e)

pub get_elem?-take :
    (n : ℕ) (xs : List ℕ) (i : ℕ) → i < n → get_elem? (take n xs) i ≡ get_elem? xs i
get_elem?-take zero xs i h = elim h [ ]
get_elem?-take (suc n) [] i h = refl
get_elem?-take (suc n) (x ∷ xs) zero h = refl
get_elem?-take (suc n) (x ∷ xs) (suc i) h = get_elem?-take n xs i (omega arith)

-- Two choices agree by their tests, and where they are taken.
pub same_choice :
    (i j : Bool) (a c z : Option ℕ)
    → i ≡ j
    → (j ≡ true → a ≡ c)
    → (if i then a else z) ≡ (if j then c else z)
same_choice i j a c z e h = ground arith
