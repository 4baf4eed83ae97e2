-- ===== src/SendBuf.antt =====
-- src/connection/stream/send_buf.rs: the sending side of a stream.
-- The queue of chunks is a list; the trace id, the logging and the shrinking of the queue's storage
-- are left out. A `usize` has 64 bits.
pub mod Push
pub mod Write
pub mod Front
pub mod Drop
pub mod Reset
pub mod Retransmit
pub mod Poll
pub mod Fetch
pub mod Round
pub mod Read
mod Runs
use tquic.Base.{ℕ, zero, suc, ◌+◌, ◌-◌, ◌^◌, List, [], ◌∷◌, ◌++◌, length, take, drop, min, max}
use tquic.Base.{
  Bool, true, false, ◌&&◌, ◌||◌, not, Option, none, some, ltb, leb, ◌==◌, if◌then◌else◌,
}
use tquic.Base.{add64, sub64, saturating_add64}
use tquic.Error.{Result, ok, err, panic, ◌>>=◌, done, final_size_error, stream_stopped}
use tquic.RangeBuf.{RangeBuf, len, max_off, advance}
use tquic.Ranges as R
use tquic.Ranges.{RangeSet}
use tquic.Ranges.Map.{Entries}

-- `SEND_BUFFER_SIZE`.
abbrev pub send_buffer_size : ℕ
send_buffer_size = 4096

pub record SendBuf : Type 0 where
  pub chunks : List RangeBuf
  pub pos : ℕ
  pub write_off : ℕ
  pub unsent_off : ℕ
  pub unacked_len : ℕ
  pub max_data : ℕ
  pub blocked_at : Option ℕ
  pub fin_off : Option ℕ
  pub shutdown : Bool
  pub acked : RangeSet
  pub retransmits : RangeSet
  pub error : Option ℕ

-- `RangeSet::default()`.
abbrev pub no_ranges : RangeSet
no_ranges = record { set = []; capacity = 2 ^ 64 - 1 }

abbrev pub new : ℕ → SendBuf
new max_data = record {
  chunks = [];
  pos = 0;
  write_off = 0;
  unsent_off = 0;
  unacked_len = 0;
  max_data = max_data;
  blocked_at = none;
  fin_off = none;
  shutdown = false;
  acked = no_ranges;
  retransmits = no_ranges;
  error = none;
}

abbrev pub is_none : List RangeBuf → Bool
is_none [] = true
is_none (b ∷ bs) = false

-- The lowest offset of data to be sent.
abbrev pub send_off : SendBuf → ℕ
send_off s = elim (R.min s.retransmits) [ none ↦ s.unsent_off | some a ↦ a ]

pub capacity : SendBuf → Result ℕ
capacity s = elim s.error [
  | some e ↦ err (stream_stopped e)
  | none ↦ ok (sub64 s.max_data s.write_off)
]

abbrev pub ready : SendBuf → Bool
ready s = not (is_none s.chunks) && ltb (send_off s) s.write_off

-- Appends one chunk to the queue.
abbrev pub push : SendBuf → List ℕ → Bool → SendBuf
push s chunk fin = record s {
  chunks = s.chunks ++ (record { bytes = chunk; off = s.write_off; fin = fin } ∷ []);
  write_off = add64 s.write_off (length chunk);
}

-- The loop of `write` that splits off chunks of `size` bytes, and the write of the rest. Each round
-- takes `size` bytes, so that the length of the data is enough fuel; `len` counts them.
pub push_chunks : ℕ → ℕ → SendBuf → List ℕ → ℕ → ℕ → Bool → SendBuf
push_chunks zero size s input len data_len fin = if length input == 0 then s else push s input fin
push_chunks (suc fuel) size s input len data_len fin =
    let chunk = take size input in
    let s' = push s chunk ((len + length chunk == data_len) && fin) in
    let rest = push_chunks fuel size s' (drop size input) (len + length chunk) data_len fin in
    if ltb size (length input) then rest else if length input == 0 then s else push s input fin

-- Whether `write` breaks the final size.
abbrev pub breaks_final_size : Option ℕ → ℕ → Bool → Bool
breaks_final_size none max_off fin = false
breaks_final_size (some fin_off) max_off fin =
    ltb fin_off max_off || ((max_off == fin_off) && not fin)

-- The end of `write`, after the checks, on the data that fits.
pub write_fitting : ℕ → SendBuf → List ℕ → Bool → ℕ → Result (ℕ × SendBuf)
write_fitting size s input fin max_off =
    let s1 = record s { fin_off = if fin then some max_off else s.fin_off } in
    let s2 = push_chunks (length input) size s1 input 0 (length input) fin in
    if length input == 0
    then ok (0, s1)
    else ok (length input, record s2 { unacked_len = add64 s2.unacked_len (length input) })

-- `write` once the capacity is known.
pub write_within : ℕ → SendBuf → List ℕ → Bool → ℕ → Result (ℕ × SendBuf)
write_within size s input fin cap =
    let max_off = add64 s.write_off (length input) in
    let fits = leb (length input) cap in
    let input' = if fits then input else take cap input in
    let fin' = fits && fin in
    if breaks_final_size s.fin_off max_off fin'
    then err final_size_error
    else write_fitting size s input' fin' max_off

-- `write`, with the size of a chunk.
pub write : ℕ → SendBuf → List ℕ → Bool → Result (ℕ × SendBuf)
write size s input fin = capacity s >>= write_within size s input fin

-- `poll_transmit` on the range that `pop_min` took out, and on the other ranges.
pub poll_lost : SendBuf → RangeSet → ℕ → ℕ → ℕ → (ℕ × ℕ) × SendBuf
poll_lost s others start end max_len =
    let e = min end (saturating_add64 start max_len) in
    ((start, e), record s { retransmits = if e == end then others else R.insert others e end })

pub poll_new : SendBuf → ℕ → (ℕ × ℕ) × SendBuf
poll_new s max_len =
    let e = min s.write_off (saturating_add64 s.unsent_off max_len) in
    ((s.unsent_off, e), record s { unsent_off = e })

pub poll_by : SendBuf → Option (ℕ × ℕ) → RangeSet → ℕ → (ℕ × ℕ) × SendBuf
poll_by s none others max_len = poll_new s max_len
poll_by s (some (a, b)) others max_len = poll_lost s others a b max_len

pub poll_transmit : SendBuf → ℕ → (ℕ × ℕ) × SendBuf
poll_transmit s max_len =
    let popped = R.pop_min s.retransmits in poll_by s popped.0 popped.1 max_len

-- The loop of `read_range` over the chunks from `pos` on: the bytes, and the new `pos`.
pub read_from : List RangeBuf → ℕ → ℕ → ℕ → List ℕ × ℕ
read_from [] pos start end = ([], pos)
read_from (b ∷ bs) pos start end =
    let rest = read_from bs (pos + 1) start end in
    let a = sub64 start b.off in
    let e = min (sub64 end b.off) (len b) in
    if leb b.off start && ltb start (max_off b)
    then (take (e - a) (drop a b.bytes), if e == len b then pos + 1 else pos)
    else rest

pub read_range : SendBuf → ℕ → ℕ → List ℕ × SendBuf
read_range s start end =
    let found = read_from (drop s.pos s.chunks) s.pos start end in
    (found.0, record s { pos = found.1 })

-- The inner loop of `read`, which collects the bytes of a range; none when the fuel runs out. A round
-- that finds no chunk does not advance, and the loop of the source then does not end.
pub read_whole : ℕ → SendBuf → ℕ → ℕ → Option (List ℕ × SendBuf)
read_whole zero s start end = if start == end then some ([], s) else none
read_whole (suc fuel) s start end =
    let found = read_range s start end in
    let rest = read_whole fuel found.1 (add64 start (length found.0)) end in
    if start == end
    then some ([], s)
    else elim rest [ none ↦ none | some (bytes, t) ↦ some (found.0 ++ bytes, t) ]

-- The outer loop of `read`: what `read` has put into `out`, and its `next_off`. Each round fills at
-- least one byte of `cap`, which is enough fuel.
pub read_loop : ℕ → SendBuf → ℕ → ℕ → List ℕ → Option ((List ℕ × ℕ) × SendBuf)
read_loop zero s cap next_off out = some ((out, next_off), s)
read_loop (suc fuel) s cap next_off out =
    let polled = poll_transmit s cap in
    let range = polled.0 in
    let n = sub64 range.1 range.0 in
    let whole = read_whole n polled.1 range.0 range.1 in
    if ltb 0 cap && (ready s && ((send_off s == next_off) && ltb (send_off s) s.max_data))
    then elim whole [
      | none ↦ none
      | some (bytes, t) ↦ read_loop fuel t (cap - n) (add64 next_off n) (out ++ bytes)
    ]
    else some ((out, next_off), s)

abbrev pub fin_at : Option ℕ → ℕ → Bool
fin_at none x = false
fin_at (some f) x = f == x

-- `read` into a buffer of `cap` bytes: the bytes, the fin flag, and the state.
pub read : SendBuf → ℕ → Option ((List ℕ × Bool) × SendBuf)
read s cap = elim (read_loop cap s cap (send_off s) []) [
  | none ↦ none
  | some ((out, next_off), t) ↦ some ((out, fin_at t.fin_off next_off), t)
]

pub update_max_data : SendBuf → ℕ → SendBuf
update_max_data s max_data = record s { max_data = max s.max_data max_data }

pub update_blocked_at : SendBuf → Option ℕ → SendBuf
update_blocked_at s blocked_at = record s { blocked_at = blocked_at }

-- The highest offset that has been consecutively acknowledged.
pub ack_off : SendBuf → ℕ
ack_off s = elim s.acked.set [ [] ↦ 0 | (a, b) ∷ r ↦ if a == 0 then b else 0 ]

pub ack : SendBuf → ℕ → ℕ → SendBuf
ack s off len = record s { acked = R.insert s.acked off (add64 off len) }

-- One more chunk dropped.
abbrev pub count_block : Result (List RangeBuf × ℕ) → Result (List RangeBuf × ℕ)
count_block r = r >>= λ p. ok (p.0, p.1 + 1)

-- The loop of `ack_and_drop`: the chunks left, and how many went; `unwrap` of the front chunk panics
-- when there is none.
pub drop_front : List RangeBuf → ℕ → Result (List RangeBuf × ℕ)
drop_front [] to_advance = if to_advance == 0 then ok ([], 0) else panic
drop_front (b ∷ bs) to_advance =
    let rest = drop_front bs (to_advance - len b) in
    if to_advance == 0
    then ok (b ∷ bs, 0)
    else if leb (len b) to_advance
    then count_block rest
    else ok (advance b to_advance ∷ bs, 0)

pub drop_acked : SendBuf → ℕ → Result SendBuf
drop_acked s to_advance = drop_front s.chunks to_advance >>= λ p.
    ok (record s { chunks = p.0; pos = s.pos - p.1; unacked_len = sub64 s.unacked_len to_advance })

pub ack_and_drop : SendBuf → ℕ → ℕ → Result SendBuf
ack_and_drop s off len =
    let acked = ack s off len in
    let s' = record acked { retransmits = R.remove s.retransmits off (add64 off len) } in
    let base_off = sub64 s.write_off s.unacked_len in
    if is_none s.chunks
    then ok (record s { retransmits = R.clear s.retransmits })
    else if ltb (ack_off s') off
    then ok s'
    else drop_acked s' (sub64 (ack_off s') base_off)

-- What a round of the loop of `retransmit` decides.
pub data Flow : Type 0 where
  stop go_on : RangeSet → ℕ → ℕ → Flow

-- A round for the acked range `[a, b)`, with the lost range `[start, end)` that is left.
pub trim_step : ℕ → ℕ → RangeSet → ℕ → ℕ → Flow
trim_step a b lost start end =
    if leb end a
    then stop lost start end
    else if leb b start
    then go_on lost start end
    else if ltb start a
    then (if leb end b then stop lost start a else go_on (R.insert lost start a) b end)
    else if leb end b
    then stop lost start start
    else go_on lost b end

-- The loop of `retransmit` and the insertion behind it.
pub trim_acked : Entries → RangeSet → ℕ → ℕ → RangeSet
trim_acked [] lost start end = R.insert lost start end
trim_acked ((a, b) ∷ r) lost start end = elim (trim_step a b lost start end) [
  | stop lost' start' end' ↦ R.insert lost' start' end'
  | go_on lost' start' end' ↦ trim_acked r lost' start' end'
]

pub retransmit : SendBuf → ℕ → ℕ → SendBuf
retransmit s off len =
    let end = add64 off len in
    let s' = record s { retransmits = trim_acked s.acked.set s.retransmits off end } in
    if is_none s.chunks || leb end (ack_off s)
    then s
    else if ltb (send_off s') (send_off s)
    then record s' { pos = 0 }
    else s'

pub filter_acked : SendBuf → ℕ → ℕ → Option (ℕ × ℕ)
filter_acked s start end = R.filter s.acked start end

-- The final offset, the number of bytes that have not been sent, and the state.
pub reset : SendBuf → (ℕ × ℕ) × SendBuf
reset s =
    let cleared = record s { fin_off = some s.unsent_off; chunks = [] } in
    let acked = ack cleared 0 s.unsent_off in
    ((s.unsent_off, s.write_off - s.unsent_off), record acked { pos = 0; write_off = s.unsent_off })

pub stop_sending : SendBuf → ℕ → Result ((ℕ × ℕ) × SendBuf)
stop_sending s error_code =
    let r = reset s in
    elim s.error [ some e ↦ err done | none ↦ ok (r.0, record r.1 { error = some error_code }) ]

pub shut : SendBuf → Result ((ℕ × ℕ) × SendBuf)
shut s = if s.shutdown then err done else ok (reset (record s { shutdown = true }))

abbrev pub is_fin : SendBuf → Bool
is_fin s = fin_at s.fin_off s.write_off

-- `RangeSet == Range`.
abbrev pub is_range : RangeSet → ℕ → ℕ → Bool
is_range s start end = elim s.set [
  | [] ↦ false
  | (a, b) ∷ r ↦ (length r == 0) && ((a == start) && (b == end))
]

pub is_complete : SendBuf → Bool
is_complete s = elim s.fin_off [ none ↦ false | some f ↦ (f == 0) || is_range s.acked 0 f ]

abbrev pub is_stopped : SendBuf → Bool
is_stopped s = elim s.error [ none ↦ false | some e ↦ true ]
