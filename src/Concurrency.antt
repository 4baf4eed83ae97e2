-- ===== src/Concurrency.antt =====
-- src/connection/stream/concurrency.rs: how many streams either side may open, and which ids are
-- still available.
pub mod Limits
mod Invariant
pub mod Trace
mod Runs
use tquic.Base.{ℕ, ◌+◌, ◌-◌, ◌/◌, ◌^◌, max, Bool, true, false, not, ◌&&◌, Option, none, some}
use tquic.Base.{ltb, ◌==◌, if◌then◌else◌, add64, sub64, saturating_add64, []}
use tquic.Error.{Result, ok, err, stream_limit_error}
use tquic.Ranges.{RangeSet, insert, remove_elem, contains}
use tquic.StreamId.{is_local, is_bidi}

pub record ConcurrencyControl : Type 0 where
  pub peer_max_streams_bidi : ℕ
  pub peer_max_streams_uni : ℕ
  pub peer_opened_streams_bidi : ℕ
  pub peer_opened_streams_uni : ℕ
  pub local_max_streams_bidi : ℕ
  pub local_max_streams_bidi_next : ℕ
  pub local_max_streams_uni : ℕ
  pub local_max_streams_uni_next : ℕ
  pub local_opened_streams_bidi : ℕ
  pub local_opened_streams_uni : ℕ
  pub streams_blocked_at_bidi : Option ℕ
  pub streams_blocked_at_uni : Option ℕ
  pub peer_bidi_avail_ids : RangeSet
  pub peer_uni_avail_ids : RangeSet
  pub local_bidi_avail_ids : RangeSet
  pub local_uni_avail_ids : RangeSet

-- `RangeSet::default()`: the capacity is `usize::MAX`.
abbrev pub no_ids : RangeSet
no_ids = record { set = []; capacity = 2 ^ 64 - 1 }

-- `ConcurrencyControl::new`.
unfoldable pub create : ℕ → ℕ → ConcurrencyControl
create local_max_streams_bidi local_max_streams_uni = record {
  peer_max_streams_bidi = 0;
  peer_max_streams_uni = 0;
  peer_opened_streams_bidi = 0;
  peer_opened_streams_uni = 0;
  local_max_streams_bidi = local_max_streams_bidi;
  local_max_streams_bidi_next = local_max_streams_bidi;
  local_max_streams_uni = local_max_streams_uni;
  local_max_streams_uni_next = local_max_streams_uni;
  local_opened_streams_bidi = 0;
  local_opened_streams_uni = 0;
  streams_blocked_at_bidi = none;
  streams_blocked_at_uni = none;
  peer_bidi_avail_ids = insert no_ids 0 local_max_streams_bidi;
  peer_uni_avail_ids = insert no_ids 0 local_max_streams_uni;
  local_bidi_avail_ids = no_ids;
  local_uni_avail_ids = no_ids;
}

unfoldable pub insert_avail_id : ConcurrencyControl → ℕ → ℕ → Bool → Bool → ConcurrencyControl
insert_avail_id c start end true true = record c {
  local_bidi_avail_ids = insert c.local_bidi_avail_ids start end;
}
insert_avail_id c start end true false = record c {
  local_uni_avail_ids = insert c.local_uni_avail_ids start end;
}
insert_avail_id c start end false true = record c {
  peer_bidi_avail_ids = insert c.peer_bidi_avail_ids start end;
}
insert_avail_id c start end false false = record c {
  peer_uni_avail_ids = insert c.peer_uni_avail_ids start end;
}

-- `if Some(max) > blocked { blocked = None }`.
abbrev unblocked : ℕ → Option ℕ → Option ℕ
unblocked limit none = none
unblocked limit (some at) = if ltb at limit then none else some at

unfoldable pub update_peer_max_streams : ConcurrencyControl → Bool → ℕ → ConcurrencyControl
unfolding insert_avail_id
update_peer_max_streams c true max_streams =
    let c' =
      if ltb c.peer_max_streams_bidi max_streams
      then record (insert_avail_id c c.peer_max_streams_bidi max_streams true true) {
        peer_max_streams_bidi = max_streams;
      }
      else c in
    record c' {
      streams_blocked_at_bidi = unblocked c'.peer_max_streams_bidi c'.streams_blocked_at_bidi;
    }
update_peer_max_streams c false max_streams =
    let c' =
      if ltb c.peer_max_streams_uni max_streams
      then record (insert_avail_id c c.peer_max_streams_uni max_streams true false) {
        peer_max_streams_uni = max_streams;
      }
      else c in
    record c' {
      streams_blocked_at_uni = unblocked c'.peer_max_streams_uni c'.streams_blocked_at_uni;
    }

unfoldable pub update_local_max_streams : ConcurrencyControl → Bool → ConcurrencyControl
unfolding insert_avail_id
update_local_max_streams c true =
    record (insert_avail_id c c.local_max_streams_bidi c.local_max_streams_bidi_next false true) {
      local_max_streams_bidi = c.local_max_streams_bidi_next;
    }
update_local_max_streams c false =
    record (insert_avail_id c c.local_max_streams_uni c.local_max_streams_uni_next false false) {
      local_max_streams_uni = c.local_max_streams_uni_next;
    }

unfoldable pub peer_max_streams : ConcurrencyControl → Bool → ℕ
peer_max_streams c bidi = if bidi then c.peer_max_streams_bidi else c.peer_max_streams_uni

unfoldable pub peer_streams_left : ConcurrencyControl → Bool → ℕ
peer_streams_left c true = sub64 c.peer_max_streams_bidi c.local_opened_streams_bidi
peer_streams_left c false = sub64 c.peer_max_streams_uni c.local_opened_streams_uni

unfoldable pub should_update_local_max_streams : ConcurrencyControl → Bool → Bool
should_update_local_max_streams c true =
    not (c.local_max_streams_bidi_next == c.local_max_streams_bidi)
    && ltb (sub64 c.local_max_streams_bidi c.peer_opened_streams_bidi)
        (sub64 c.local_max_streams_bidi_next c.local_max_streams_bidi)
should_update_local_max_streams c false =
    not (c.local_max_streams_uni_next == c.local_max_streams_uni)
    && ltb (sub64 c.local_max_streams_uni c.peer_opened_streams_uni)
        (sub64 c.local_max_streams_uni_next c.local_max_streams_uni)

unfoldable pub increase_max_streams_credits : ConcurrencyControl → Bool → ℕ → ConcurrencyControl
increase_max_streams_credits c true delta = record c {
  local_max_streams_bidi_next = saturating_add64 c.local_max_streams_bidi_next delta;
}
increase_max_streams_credits c false delta = record c {
  local_max_streams_uni_next = saturating_add64 c.local_max_streams_uni_next delta;
}

unfoldable pub update_streams_blocked_at : ConcurrencyControl → Bool → Option ℕ → ConcurrencyControl
update_streams_blocked_at c true at = record c { streams_blocked_at_bidi = at }
update_streams_blocked_at c false at = record c { streams_blocked_at_uni = at }

-- The sequence number of a stream, counted from 1.
abbrev pub sequence : ℕ → ℕ
sequence id = id / 2 ^ 2 + 1

-- `check_concurrency_limits` by who initiated the stream and of which kind it is; the state is
-- changed on the error path too.
unfoldable pub check_limits :
    ConcurrencyControl → ℕ → Bool → Bool → Result (Unit {0}) × ConcurrencyControl
unfolding update_streams_blocked_at
check_limits c seq true true =
    let n = max c.local_opened_streams_bidi seq in
    if ltb c.peer_max_streams_bidi n
    then (err stream_limit_error, update_streams_blocked_at c true (some c.peer_max_streams_bidi))
    else (ok tt, record c { local_opened_streams_bidi = max c.local_opened_streams_bidi n })
check_limits c seq true false =
    let n = max c.local_opened_streams_uni seq in
    if ltb c.peer_max_streams_uni n
    then (err stream_limit_error, update_streams_blocked_at c false (some c.peer_max_streams_uni))
    else (ok tt, record c { local_opened_streams_uni = max c.local_opened_streams_uni n })
check_limits c seq false true =
    let n = max c.peer_opened_streams_bidi seq in
    if ltb c.local_max_streams_bidi n
    then (err stream_limit_error, c)
    else (ok tt, record c { peer_opened_streams_bidi = max c.peer_opened_streams_bidi n })
check_limits c seq false false =
    let n = max c.peer_opened_streams_uni seq in
    if ltb c.local_max_streams_uni n
    then (err stream_limit_error, c)
    else (ok tt, record c { peer_opened_streams_uni = max c.peer_opened_streams_uni n })

unfoldable pub check_concurrency_limits :
    ConcurrencyControl → ℕ → Bool → Result (Unit {0}) × ConcurrencyControl
unfolding check_limits
check_concurrency_limits c id is_server =
    check_limits c (sequence id) (is_local id is_server) (is_bidi id)

-- The limit that a stream is under.
abbrev pub limit_of : ConcurrencyControl → Bool → Bool → ℕ
limit_of c true true = c.peer_max_streams_bidi
limit_of c true false = c.peer_max_streams_uni
limit_of c false true = c.local_max_streams_bidi
limit_of c false false = c.local_max_streams_uni

unfoldable pub is_limited : ConcurrencyControl → ℕ → Bool → Bool
is_limited c stream_id is_server =
    ltb (limit_of c (is_local stream_id is_server) (is_bidi stream_id)) (sequence stream_id)

-- The ids that are available to a kind of stream.
abbrev pub avail_of : ConcurrencyControl → Bool → Bool → RangeSet
avail_of c true true = c.local_bidi_avail_ids
avail_of c true false = c.local_uni_avail_ids
avail_of c false true = c.peer_bidi_avail_ids
avail_of c false false = c.peer_uni_avail_ids

unfoldable pub is_available : ConcurrencyControl → ℕ → Bool → Bool
is_available c stream_id is_server =
    contains (avail_of c (is_local stream_id is_server) (is_bidi stream_id)) (stream_id / 2 ^ 2)

unfoldable pub remove_avail : ConcurrencyControl → ℕ → Bool → Bool → ConcurrencyControl
remove_avail c id true true = record c {
  local_bidi_avail_ids = remove_elem c.local_bidi_avail_ids id;
}
remove_avail c id true false = record c {
  local_uni_avail_ids = remove_elem c.local_uni_avail_ids id;
}
remove_avail c id false true = record c {
  peer_bidi_avail_ids = remove_elem c.peer_bidi_avail_ids id;
}
remove_avail c id false false = record c {
  peer_uni_avail_ids = remove_elem c.peer_uni_avail_ids id;
}

unfoldable pub remove_avail_id : ConcurrencyControl → ℕ → Bool → ConcurrencyControl
unfolding remove_avail
remove_avail_id c stream_id is_server =
    remove_avail c (stream_id / 2 ^ 2) (is_local stream_id is_server) (is_bidi stream_id)
