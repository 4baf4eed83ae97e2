-- ===== src/Concurrency/Limits.antt =====
-- What the operations of src/connection/stream/concurrency.rs promise.
use tquic.Base.{ℕ, ◌+◌, ◌*◌, ◌/◌, ◌%◌, ◌^◌, ◌≤◌, ◌<◌, ◌≡◌, refl, max, Bool, true, false, arith}
use tquic.Base.{ltb, ◌==◌, ◌&&◌, not, Option, some, if◌then◌else◌, bit_and}
use tquic.Base.Fields.{bit_and_field}
use tquic.Error.{Result, ok, err, stream_limit_error}
use tquic.Ranges.{RangeSet, insert, remove_elem, contains}
use tquic.Ranges.Insert.{insert-Added}
use tquic.Ranges.Remove.{remove_elem-Removed}
use tquic.Ranges.Query.{contains-covers}
use tquic.Concurrency.{
  ConcurrencyControl, update_peer_max_streams, check_limits, check_concurrency_limits, is_limited,
  is_available, limit_of, avail_of, remove_avail, remove_avail_id,
}
use tquic.Concurrency.Invariant.{IsValid, IsPool}
use tquic.StreamId.{is_local, is_bidi}

avail-IsPool :
    (c : ConcurrencyControl) (local bidi : Bool)
    → IsValid c
    → IsPool (avail_of c local bidi) (limit_of c local bidi)
avail-IsPool c true true v = v.local_bidi
avail-IsPool c true false v = v.local_uni
avail-IsPool c false true v = v.peer_bidi
avail-IsPool c false false v = v.peer_uni

-- In a valid state an id that is available for a new stream is under its limit.
pub is_available-is_limited :
    (c : ConcurrencyControl) (id : ℕ) (is_server : Bool)
    → IsValid c
    → is_available c id is_server ≡ true
    → is_limited c id is_server ≡ false
unfolding is_available is_limited IsPool
is_available-is_limited c id s v e =
    let w = avail-IsPool c (is_local id s) (is_bidi id) v in
    ground (
      arith,
      contains-covers (avail_of c (is_local id s) (is_bidi id)) (id / 2 ^ 2) w.0,
      w.1 (id / 2 ^ 2),
    )

-- The streams opened so far of a kind.
abbrev opened_of : ConcurrencyControl → Bool → Bool → ℕ
opened_of c true true = c.local_opened_streams_bidi
opened_of c true false = c.local_opened_streams_uni
opened_of c false true = c.peer_opened_streams_bidi
opened_of c false false = c.peer_opened_streams_uni

abbrev blocked_of : ConcurrencyControl → Bool → Option ℕ
blocked_of c true = c.streams_blocked_at_bidi
blocked_of c false = c.streams_blocked_at_uni

abbrev same : Bool → Bool → Bool
same true b = b
same false b = not b

-- What a check of the stream with the sequence number `seq`, counted from 1, comes to: it is refused
-- above the limit of its kind; the count of its kind is all that an accepted one changes, and the note
-- of what blocked its kind all that a refused one of this side changes.
abbrev pub Checked :
    ConcurrencyControl → ℕ → Bool → Bool → Result (Unit {0}) × ConcurrencyControl → Type 0
Checked c seq local bidi (r, c') =
    let refused = ltb (limit_of c local bidi) seq in
    (r ≡ (if refused then err stream_limit_error else ok tt))
    × ((l b : Bool)
        → opened_of c' l b ≡ (
            if not refused && (same local l && same bidi b)
            then max (opened_of c l b) seq
            else opened_of c l b))
    × ((b : Bool)
        → blocked_of c' b ≡ (
            if refused && (local && same bidi b)
            then some (limit_of c local bidi)
            else blocked_of c b))
    × ((l b : Bool) → limit_of c' l b ≡ limit_of c l b)

check_limits-Checked :
    (c : ConcurrencyControl) (seq : ℕ) (local bidi : Bool)
    → IsValid c
    → Checked c seq local bidi (check_limits c seq local bidi)
unfolding check_limits
check_limits-Checked c seq true true v =
    (ground arith, λ l b. ground arith, λ b. ground arith, λ l b. ground arith)
check_limits-Checked c seq true false v =
    (ground arith, λ l b. ground arith, λ b. ground arith, λ l b. ground arith)
check_limits-Checked c seq false true v =
    (ground arith, λ l b. ground arith, λ b. ground arith, λ l b. ground arith)
check_limits-Checked c seq false false v =
    (ground arith, λ l b. ground arith, λ b. ground arith, λ l b. ground arith)

-- A stream id is its two low bits and its sequence.
low_bit : (a : ℕ) → bit_and a 0x1 ≡ a % 2
low_bit a = omega (arith, bit_and_field a 0 1)

second_bit : (a : ℕ) → bit_and a 0x2 ≡ a / 2 % 2 * 2
second_bit a = omega (arith, bit_and_field a 1 1)

-- The bits of a stream id as RFC 9000 reads them, in section 2.1.
abbrev pub is_own : ℕ → Bool → Bool
is_own id true = id % 2 == 1
is_own id false = id % 2 == 0

abbrev pub is_two_way : ℕ → Bool
is_two_way id = ltb (id % 4) 2

is_local-is_own : (id : ℕ) (is_server : Bool) → is_local id is_server ≡ is_own id is_server
unfolding is_local
is_local-is_own id true = rw (low_bit id) refl
is_local-is_own id false = rw (low_bit id) refl

is_bidi-is_two_way : (id : ℕ) → is_bidi id ≡ is_two_way id
unfolding is_bidi
is_bidi-is_two_way id = ground (arith, second_bit id)

-- In a valid state `check_concurrency_limits` takes the id 4 n + x for the stream n of its kind, where
-- an odd x stands for the server and x of 2 or more for one direction. It answers STREAM_LIMIT_ERROR
-- exactly if n streams and this one are more than the limit of that kind; then it counts nothing and,
-- for a stream of this side, notes the limit that blocked it. Otherwise the count of opened streams of
-- that kind becomes n + 1 at least. No other count, note or limit changes.
pub check_concurrency_limits-Checked :
    (c : ConcurrencyControl) (id : ℕ) (is_server : Bool)
    → IsValid c
    → Checked c
        (id / 4 + 1)
        (is_own id is_server)
        (is_two_way id)
        (check_concurrency_limits c id is_server)
unfolding check_concurrency_limits
check_concurrency_limits-Checked c id s v =
    rw (is_local-is_own id s, is_bidi-is_two_way id)
      (check_limits-Checked c (id / 4 + 1) (is_own id s) (is_two_way id) v)

id_of_parts :
    (a b : ℕ) (s : Bool)
    → is_local a s ≡ is_local b s
    → is_bidi a ≡ is_bidi b
    → a / 2 ^ 2 ≡ b / 2 ^ 2
    → a ≡ b
unfolding is_local is_bidi
id_of_parts a b s p q e = ground (arith, low_bit a, low_bit b, second_bit a, second_bit b)

taken_from :
    (r : RangeSet) (k l : ℕ) (limit : ℕ)
    → IsPool r limit
    → k + 1 < 2 ^ 64
    → contains (remove_elem r k) l ≡ (contains r l && not (l == k))
unfolding IsPool
taken_from r k l limit v small =
    let w = remove_elem-Removed r k v.0 in
    ground (arith, contains-covers r l v.0, contains-covers (remove_elem r k) l w.sorted, w.exact l)

-- The pools after an id is taken out of one of them.
avail-remove_avail :
    (c : ConcurrencyControl) (k l : ℕ) (local bidi local' bidi' : Bool)
    → IsValid c
    → k + 1 < 2 ^ 64
    → contains (avail_of (remove_avail c k local bidi) local' bidi') l ≡ (
        contains (avail_of c local' bidi') l
        && not (same local local' && (same bidi bidi' && l == k)))
unfolding remove_avail
avail-remove_avail c k l true true local' bidi' v small =
    grind (arith, taken_from c.local_bidi_avail_ids k l c.peer_max_streams_bidi v.local_bidi small)
avail-remove_avail c k l true false local' bidi' v small =
    grind (arith, taken_from c.local_uni_avail_ids k l c.peer_max_streams_uni v.local_uni small)
avail-remove_avail c k l false true local' bidi' v small =
    grind (arith, taken_from c.peer_bidi_avail_ids k l c.local_max_streams_bidi v.peer_bidi small)
avail-remove_avail c k l false false local' bidi' v small =
    grind (arith, taken_from c.peer_uni_avail_ids k l c.local_max_streams_uni v.peer_uni small)

-- In a valid state `remove_avail_id` takes exactly the given id away: every other id, of whatever
-- kind, is as available as it was.
pub is_available-remove_avail_id :
    (c : ConcurrencyControl) (id other : ℕ) (is_server : Bool)
    → IsValid c
    → id < 2 ^ 62
    → is_available (remove_avail_id c id is_server) other is_server
      ≡ (is_available c other is_server && not (other == id))
unfolding is_available remove_avail_id
is_available-remove_avail_id c id other s v small = ground (
  arith,
  avail-remove_avail c (id / 2 ^ 2) (other / 2 ^ 2) (is_local id s) (is_bidi id) (is_local other s)
      (is_bidi other) v (omega arith),
  id_of_parts id other s,
)

-- A higher limit from the peer makes every id up to it available to local streams of that kind,
-- or the id was below the old limit; a limit that is not higher changes no limit.
pub update_peer_max_streams-avail :
    (c : ConcurrencyControl) (bidi : Bool) (n k : ℕ)
    → IsValid c
    → limit_of c true bidi ≤ k
    → k < n
    → (limit_of (update_peer_max_streams c bidi n) true bidi ≡ n)
      × (contains (avail_of (update_peer_max_streams c bidi n) true bidi) k ≡ true)
unfolding update_peer_max_streams IsPool
update_peer_max_streams-avail c true n k v h p =
    let w = insert-Added c.local_bidi_avail_ids c.peer_max_streams_bidi n v.local_bidi.0 in
    ground (
      arith,
      w.all k,
      contains-covers (insert c.local_bidi_avail_ids c.peer_max_streams_bidi n) k w.sorted,
    )
update_peer_max_streams-avail c false n k v h p =
    let w = insert-Added c.local_uni_avail_ids c.peer_max_streams_uni n v.local_uni.0 in
    ground (
      arith,
      w.all k,
      contains-covers (insert c.local_uni_avail_ids c.peer_max_streams_uni n) k w.sorted,
    )
