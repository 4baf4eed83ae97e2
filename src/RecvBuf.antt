-- ===== src/RecvBuf.antt =====
-- src/connection/stream/recv_buf.rs: the receiving side of a stream.
-- The `BTreeMap<u64, RangeBuf>` is the list of its entries in key order. The trace id and the logging
-- are left out.
pub mod Chunks
pub mod Overlap
pub mod Fill
pub mod Queue
pub mod Write
pub mod Read
pub mod Deliver
pub mod Progress
mod Runs
use tquic.Base.{ℕ, zero, suc, ◌+◌, ◌-◌, List, [], ◌∷◌, ◌++◌, length, take, min, max}
use tquic.Base.{
  Bool, true, false, ◌&&◌, ◌||◌, not, Option, none, some, ltb, leb, ◌==◌, if◌then◌else◌,
}
use tquic.Base.{add64, sub64}
use tquic.Error.{
  Error, Result, ok, err, panic, ◌>>=◌, done, final_size_error, flow_control_error, stream_reset,
}
use tquic.FlowControl as F
use tquic.FlowControl.{FlowControl}
use tquic.RangeBuf as B
use tquic.RangeBuf.{RangeBuf, len, max_off, is_empty, advance, split_off}

abbrev pub Entries : Type 0
Entries = List (ℕ × RangeBuf)

pub record RecvBuf : Type 0 where
  pub chunks : Entries
  pub read_off : ℕ
  pub recv_off : ℕ
  pub fin_off : Option ℕ
  pub error : Option ℕ
  pub shutdown : Bool
  pub flow_control : FlowControl

abbrev pub new : ℕ → ℕ → RecvBuf
new max_data max_window = record {
  chunks = [];
  read_off = 0;
  recv_off = 0;
  fin_off = none;
  error = none;
  shutdown = false;
  flow_control = F.create max_data max_window;
}

-- `BTreeMap::insert`.
unfoldable pub bt_insert : Entries → ℕ → RangeBuf → Entries
bt_insert [] k v = (k, v) ∷ []
bt_insert ((a, b) ∷ r) k v =
    if ltb k a then (k, v) ∷ (a, b) ∷ r else if k == a then (k, v) ∷ r else (a, b) ∷ bt_insert r k v

-- `range(k..)`.
unfoldable pub range_from : Entries → ℕ → Entries
range_from [] k = []
range_from ((a, b) ∷ r) k = if ltb a k then range_from r k else (a, b) ∷ r

-- `self.fin_off == Some(off)`.
abbrev pub fin_at : Option ℕ → ℕ → Bool
fin_at none x = false
fin_at (some f) x = f == x

abbrev pub is_fin : RecvBuf → Bool
is_fin s = fin_at s.fin_off s.read_off

-- How an existing chunk `b` bears on the new buffer.
pub data Look : Type 0 where
  leave duplicate pass : Look
  cut_front cut_back : ℕ → Look

pub look : RangeBuf → RangeBuf → Look
look b buf =
    if ltb (max_off buf) b.off
    then leave
    else if leb b.off buf.off && leb (max_off buf) (max_off b)
    then duplicate
    else if leb b.off buf.off && ltb buf.off (max_off b)
    then cut_front (sub64 (max_off b) buf.off)
    else if ltb buf.off b.off && ltb b.off (max_off buf)
    then cut_back (sub64 b.off buf.off)
    else pass

-- What the loop over the existing chunks leaves of the buffer, and the queue of buffers.
pub data Scan : Type 0 where
  gone : List RangeBuf → Scan
  kept : RangeBuf → List RangeBuf → Scan

pub scan : Entries → RangeBuf → List RangeBuf → Scan
scan [] buf tmp = kept buf tmp
scan ((k, b) ∷ r) buf tmp = elim (look b buf) [
  | leave ↦ kept buf tmp
  | duplicate ↦ gone tmp
  | pass ↦ scan r buf tmp
  | cut_front n ↦ scan r (advance buf n) tmp
  | cut_back n ↦ scan r (split_off buf n).0 (tmp ++ ((split_off buf n).1 ∷ []))
]

pub scan_from : RecvBuf → RangeBuf → List RangeBuf → Scan
scan_from s buf tmp =
    if ltb buf.off s.recv_off || is_empty buf
    then scan (range_from s.chunks buf.off) buf tmp
    else kept buf tmp

-- `Bytes::advance` panics past the end.
pub skip_read : ℕ → RangeBuf → Result RangeBuf
skip_read read_off buf =
    if ltb buf.off read_off
    then (if ltb (len buf) (read_off - buf.off)
        then panic
        else ok (advance buf (read_off - buf.off)))
    else ok buf

pub store : RecvBuf → Scan → RecvBuf × List RangeBuf
store s (gone tmp) = (s, tmp)
store s (kept buf tmp) =
    let chunks = bt_insert s.chunks (max_off buf) buf in
    (
      record s {
        chunks = if s.shutdown then s.chunks else chunks;
        recv_off = max s.recv_off (max_off buf);
      },
      tmp,
    )

-- The loop of `write` over the queue of buffers; `panic` also stands for fuel that runs out.
pub write_loop : ℕ → RecvBuf → List RangeBuf → Result RecvBuf
write_loop fuel s [] = ok s
write_loop zero s (buf ∷ tmp) = panic
write_loop (suc fuel) s (buf ∷ tmp) = skip_read s.read_off buf >>= λ b.
    let stored = store s (scan_from s b tmp) in write_loop fuel stored.0 stored.1

-- The checks of `write`, in their order.
abbrev pub breaks_fin : Option ℕ → RangeBuf → Bool
breaks_fin none buf = false
breaks_fin (some fin_off) buf =
    ltb fin_off (max_off buf) || (buf.fin && not (fin_off == max_off buf))

pub refused : RecvBuf → RangeBuf → Option Error
refused s buf =
    if ltb s.flow_control.max_data (max_off buf)
    then some flow_control_error
    else if breaks_fin s.fin_off buf || (buf.fin && ltb (max_off buf) s.recv_off)
    then some final_size_error
    else none

-- `write` after its checks. The queue is run at most once for each chunk, and once more.
pub write_accepted : RecvBuf → RangeBuf → Result RecvBuf
write_accepted s buf =
    let s' = if buf.fin then record s { fin_off = some (max_off buf) } else s in
    let looped = write_loop (length s.chunks + 1) s' (buf ∷ []) in
    if is_fin s
    then ok s
    else if not buf.fin && is_empty buf
    then ok s'
    else if leb (max_off buf) s.read_off && not (is_empty buf)
    then ok s'
    else looped

pub write_buf : RecvBuf → RangeBuf → Result RecvBuf
write_buf s buf = elim (refused s buf) [ some e ↦ err e | none ↦ write_accepted s buf ]

pub write : RecvBuf → ℕ → List ℕ → Bool → Result RecvBuf
write s offset input fin = write_buf s (B.new input offset fin)

abbrev pub ready : RecvBuf → Bool
ready s = elim s.chunks [ [] ↦ false | (k, b) ∷ r ↦ b.off == s.read_off ]

-- The loop of `read`: the bytes read, the chunks left and the new `read_off`.
pub read_chunks : Entries → ℕ → ℕ → List ℕ × (Entries × ℕ)
read_chunks [] read_off cap = ([], ([], read_off))
read_chunks ((k, b) ∷ r) read_off cap =
    let n = min (len b) cap in
    let rest = read_chunks r (add64 read_off n) (cap - n) in
    if ltb 0 cap && (b.off == read_off)
    then (if ltb n (len b)
        then (take n b.bytes, ((k, advance b n) ∷ r, add64 read_off n))
        else (b.bytes ++ rest.0, rest.1))
    else ([], ((k, b) ∷ r, read_off))

-- `read` into a buffer of `cap` bytes: the bytes, the fin flag, and the state.
pub read_some : RecvBuf → ℕ → (List ℕ × Bool) × RecvBuf
read_some s cap =
    let p = read_chunks s.chunks s.read_off cap in
    let t = record s {
      chunks = p.1.0;
      read_off = p.1.1;
      flow_control = F.increase_read_off s.flow_control (length p.0);
    } in
    ((p.0, is_fin t), t)

-- An error leaves the state that stands beside it.
pub read : RecvBuf → ℕ → Result (List ℕ × Bool) × RecvBuf
read s cap =
    let p = read_some s cap in
    if not (ready s) then (err done, s) else elim s.error [
      | none ↦ (ok p.0, p.1)
      | some e ↦ (err (stream_reset e), record s { chunks = [] })
    ]

-- What `reset` does once the final size is agreed.
pub reset_to : RecvBuf → ℕ → ℕ → Result (ℕ × RecvBuf)
reset_to s error_code final_size =
    let s' = record s { error = some error_code; chunks = [] } in
    write s' final_size [] true >>= λ t.
    ok (final_size - s.recv_off, record t { read_off = final_size })

-- `fin_off != final_size`, for a final size that is known.
abbrev pub breaks_size : Option ℕ → ℕ → Bool
breaks_size none final_size = false
breaks_size (some f) final_size = not (f == final_size)

pub reset : RecvBuf → ℕ → ℕ → Result (ℕ × RecvBuf)
reset s error_code final_size =
    if breaks_size s.fin_off final_size || ltb final_size s.recv_off
    then err final_size_error
    else elim s.error [
      | some e ↦ ok (final_size - s.recv_off, s)
      | none ↦ reset_to s error_code final_size
    ]

pub shut : RecvBuf → Result (ℕ × RecvBuf)
shut s =
    if s.shutdown
    then err done
    else ok (
      sub64 s.recv_off s.read_off,
      record s { shutdown = true; chunks = []; read_off = s.recv_off },
    )

pub update_max_data : RecvBuf → ℕ → RecvBuf
update_max_data s now = record s { flow_control = F.update_max_data s.flow_control now }

abbrev pub max_data_next : RecvBuf → ℕ
max_data_next s = F.max_data_next s.flow_control

pub autotune_window : RecvBuf → ℕ → ℕ → RecvBuf
autotune_window s now srtt = record s { flow_control = F.autotune_window s.flow_control now srtt }

pub should_send_max_data : RecvBuf → Bool
should_send_max_data s = elim s.fin_off [
  | some f ↦ false
  | none ↦ F.should_send_max_data s.flow_control
]
