-- ===== src/Cid/Mgr.antt =====
-- The operations of `ConnectionIdMgr` of src/connection/cid.rs.
use tquic.Base.{ℕ, ◌+◌, ◌-◌, ◌*◌, ◌/◌, ◌%◌, ◌^◌, Bool, false, not, ◌&&◌, ◌||◌, Option, none, some}
use tquic.Base.{List, [], ◌∷◌, ◌++◌, length, min, max, ltb, leb, ◌==◌, if◌then◌else◌, add64}
use tquic.Error.{
  Result, ok, err, panic, internal_error, connection_id_limit_error, protocol_violation,
}
use tquic.Codec.{be64}
use tquic.Frame.{Frame, new_connection_id}
use tquic.Cid.{
  ConnectionIdItem, ConnectionIdDeque, ConnectionIdMgr, same_cid, same_token, is_none, is_empty_cid,
  get, set_path, push, remove, keep_from, lower_seqs, lower_paths, enlarge,
}

-- `ConnectionIdMgr::new`; the queues are bounded by twice their limit.
unfoldable pub create : ℕ → List ℕ → ℕ → Option ℕ → ConnectionIdMgr
create dcid_limit initial_scid initial_path_id reset_token = record {
  dcids = record { queue = []; capacity = dcid_limit * 2 - 1 };
  scids = record {
    queue =
        record {
          cid = initial_scid;
          seq = 0;
          reset_token = reset_token;
          path_id = some initial_path_id;
        }
        ∷ [];
    capacity = 2 * 2 - 1;
  };
  dcid_limit = dcid_limit;
  scid_limit = 2;
  zero_length_scid = is_empty_cid initial_scid;
  zero_length_dcid = false;
  next_scid_seq = 1;
  retire_prior_to = 0;
  scids_to_advertise = [];
  largest_peer_retire_prior_to = 0;
  dcids_to_retire = [];
}

abbrev pub or_same : Result ConnectionIdDeque → ConnectionIdDeque → ConnectionIdDeque
or_same (ok d) e = d
or_same (err x) e = e
or_same panic e = e

unfoldable pub set_initial_dcid : ConnectionIdMgr → List ℕ → Option ℕ → Option ℕ → ConnectionIdMgr
unfolding push
set_initial_dcid m cid reset_token path_id =
    let cleared = record m.dcids { queue = [] } in
    record m {
      zero_length_dcid = is_empty_cid cid;
      dcids =
          or_same
            (push cleared
              (record { cid = cid; seq = 0; reset_token = reset_token; path_id = path_id }))
            cleared;
    }

abbrev pub max_cids_count : ℕ
max_cids_count = 16

unfoldable pub set_scid_limit : ConnectionIdMgr → ℕ → ConnectionIdMgr
set_scid_limit m n =
    let limit = max (min n max_cids_count) 2 in
    record m { scid_limit = limit; scids = enlarge m.scids (2 * limit - 1) }

abbrev pub or_internal {ℓ} : {A : Type ℓ} → Option A → Result A
or_internal none = err internal_error
or_internal (some a) = ok a

pub get_scid : ConnectionIdMgr → ℕ → Result ConnectionIdItem
get_scid m seq = or_internal (get m.scids.queue seq)

pub get_dcid : ConnectionIdMgr → ℕ → Result ConnectionIdItem
get_dcid m seq = or_internal (get m.dcids.queue seq)

pub find_cid : List ConnectionIdItem → List ℕ → Option (ℕ × Option ℕ)
find_cid [] cid = none
find_cid (c ∷ r) cid = if same_cid c.cid cid then some (c.seq, c.path_id) else find_cid r cid

pub find_scid : ConnectionIdMgr → List ℕ → Option (ℕ × Option ℕ)
find_scid m scid = find_cid m.scids.queue scid

unfoldable pub mark_scid_used : ConnectionIdMgr → ℕ → ℕ → Result ConnectionIdMgr
mark_scid_used m seq path_id = elim (get m.scids.queue seq) [
  | none ↦ err internal_error
  | some c ↦ ok (record m { scids = record m.scids { queue = set_path m.scids.queue seq path_id } })
]

unfoldable pub mark_dcid_used : ConnectionIdMgr → ℕ → ℕ → Result ConnectionIdMgr
mark_dcid_used m seq path_id = elim (get m.dcids.queue seq) [
  | none ↦ err internal_error
  | some c ↦ ok (record m { dcids = record m.dcids { queue = set_path m.dcids.queue seq path_id } })
]

pub count_unused : List ConnectionIdItem → ℕ
count_unused [] = 0
count_unused (c ∷ r) = let rest = count_unused r in if is_none c.path_id then rest + 1 else rest

pub unused_scids : ConnectionIdMgr → ℕ
unused_scids m = count_unused m.scids.queue

pub unused_dcids : ConnectionIdMgr → ℕ
unused_dcids m = if m.zero_length_dcid then 0 else count_unused m.dcids.queue

-- The lower of two, where the second may be missing.
abbrev pub lower_of : ℕ → Option ℕ → Option ℕ
lower_of n none = some n
lower_of n (some k) = some (min n k)

unfoldable pub lowest_from : ℕ → List ConnectionIdItem → Option ℕ
lowest_from n [] = none
lowest_from n (c ∷ r) =
    let rest = lowest_from n r in if leb n c.seq then lower_of c.seq rest else rest

abbrev pub lowest_active_scid_seq : ConnectionIdMgr → Option ℕ
lowest_active_scid_seq m = lowest_from m.retire_prior_to m.scids.queue

unfoldable pub lowest_unused : List ConnectionIdItem → Option ℕ
lowest_unused [] = none
lowest_unused (c ∷ r) =
    let rest = lowest_unused r in if is_none c.path_id then lower_of c.seq rest else rest

pub lowest_unused_dcid_seq : ConnectionIdMgr → Option ℕ
lowest_unused_dcid_seq m = lowest_unused m.dcids.queue

-- `VecDeque::retain(|s| *s != seq)`.
unfoldable pub without : ℕ → List ℕ → List ℕ
without seq [] = []
without seq (s ∷ r) = let rest = without seq r in if s == seq then rest else s ∷ rest

-- `VecDeque::contains`.
unfoldable pub has : ℕ → List ℕ → Bool
has seq [] = false
has seq (s ∷ r) = (s == seq) || has seq r

unfoldable pub mark_scid_to_advertise : ConnectionIdMgr → ℕ → Bool → ConnectionIdMgr
mark_scid_to_advertise m seq advertise = record m {
  scids_to_advertise =
      if advertise then m.scids_to_advertise ++ (seq ∷ []) else without seq m.scids_to_advertise;
}

unfoldable pub mark_dcid_to_retire : ConnectionIdMgr → ℕ → Bool → ConnectionIdMgr
mark_dcid_to_retire m seq retire = record m {
  dcids_to_retire =
      if retire then m.dcids_to_retire ++ (seq ∷ []) else without seq m.dcids_to_retire;
}

-- `add_scid` after the check of the limit.
unfoldable pub add_fresh :
    ConnectionIdMgr → List ℕ → Option ℕ → Bool → Option ℕ → Result ℕ × ConnectionIdMgr
unfolding push
add_fresh m cid reset_token advertise path_id =
    let seq = m.next_scid_seq in
    let item : ConnectionIdItem = record {
      cid = cid;
      seq = seq;
      reset_token = reset_token;
      path_id = path_id;
    } in
    if not (seq == 0) && is_none reset_token
    then (err internal_error, m)
    else elim (push m.scids item) [
      | ok d ↦ (
        ok seq,
        mark_scid_to_advertise (record m { scids = d; next_scid_seq = add64 seq 1 }) seq advertise,
      )
      | err e ↦ (err e, m)
      | panic ↦ (panic, m)
    ]

unfoldable pub add_scid :
    ConnectionIdMgr → List ℕ → Option ℕ → Bool → Option ℕ → Bool → Result ℕ × ConnectionIdMgr
add_scid m cid reset_token advertise path_id retire_if_needed =
    if m.zero_length_scid
    then (err internal_error, m)
    else if leb m.scid_limit (length m.scids.queue)
    then (if retire_if_needed
        then elim (lowest_active_scid_seq m) [
          | none ↦ (err internal_error, m)
          | some s ↦
              add_fresh (record m { retire_prior_to = add64 s 1 }) cid reset_token advertise path_id
        ]
        else (err connection_id_limit_error, m))
    else add_fresh m cid reset_token advertise path_id

unfoldable pub too_many_to_retire : ConnectionIdMgr → Bool
too_many_to_retire m = ltb (m.dcid_limit * 4) (length m.dcids_to_retire)

-- The first dcid with this id or this sequence number.
unfoldable pub find_dcid : List ConnectionIdItem → List ℕ → ℕ → Option ConnectionIdItem
find_dcid [] cid seq = none
find_dcid (c ∷ r) cid seq =
    if same_cid c.cid cid || (c.seq == seq) then some c else find_dcid r cid seq

-- `add_dcid` puts the item into the queue.
unfoldable pub admit :
    ConnectionIdMgr → ConnectionIdItem → List (ℕ × ℕ) → Result (List (ℕ × ℕ)) × ConnectionIdMgr
unfolding push
admit m item paths = elim (push m.dcids item) [
  | ok d ↦ (ok paths, record m { dcids = d })
  | err e ↦ (err e, m)
  | panic ↦ (panic, m)
]

-- The dcids below `n` give way.
unfoldable pub retire_lower : ConnectionIdMgr → ℕ → ConnectionIdMgr
retire_lower m n = record m {
  dcids = record m.dcids { queue = keep_from n m.dcids.queue };
  dcids_to_retire = m.dcids_to_retire ++ lower_seqs n m.dcids.queue;
  largest_peer_retire_prior_to = n;
}

-- `add_dcid` of an id that is not in the queue.
unfoldable pub add_new_dcid :
    ConnectionIdMgr → List ℕ → ℕ → ℕ → ℕ → Result (List (ℕ × ℕ)) × ConnectionIdMgr
unfolding admit too_many_to_retire retire_lower
add_new_dcid m cid seq reset_token retire_prior_to =
    let item : ConnectionIdItem = record {
      cid = cid;
      seq = seq;
      reset_token = some reset_token;
      path_id = none;
    } in
    let late = record m { dcids_to_retire = m.dcids_to_retire ++ (seq ∷ []) } in
    let lowered = retire_lower m retire_prior_to in
    if ltb seq retire_prior_to
    then (err protocol_violation, m)
    else if ltb seq m.largest_peer_retire_prior_to && not (has seq m.dcids_to_retire)
    then (if too_many_to_retire late then (err protocol_violation, late) else (ok [], late))
    else if ltb m.largest_peer_retire_prior_to retire_prior_to
    then (if too_many_to_retire lowered
        then (err protocol_violation, lowered)
        else admit lowered item (lower_paths retire_prior_to m.dcids.queue))
    else admit m item []

-- A known id or sequence number must come with what it came with before.
unfoldable pub add_dcid :
    ConnectionIdMgr → List ℕ → ℕ → ℕ → ℕ → Result (List (ℕ × ℕ)) × ConnectionIdMgr
add_dcid m cid seq reset_token retire_prior_to =
    if m.zero_length_dcid
    then (err protocol_violation, m)
    else elim (find_dcid m.dcids.queue cid seq) [
      | none ↦ add_new_dcid m cid seq reset_token retire_prior_to
      | some c ↦
          if not (same_cid c.cid cid)
            || (not (c.seq == seq) || not (same_token c.reset_token (some reset_token)))
          then (err protocol_violation, m)
          else (ok [], m)
    ]

-- `retire_scid` behind the removal.
unfoldable pub retire_found :
    Option ConnectionIdItem → ConnectionIdMgr → List ℕ → Result (Option ℕ) × ConnectionIdMgr
retire_found none m pkt_dcid = (ok none, m)
retire_found (some c) m pkt_dcid =
    if same_cid c.cid pkt_dcid
    then (err protocol_violation, m)
    else elim (lowest_active_scid_seq m) [
      | none ↦ (err internal_error, m)
      | some s ↦ (ok c.path_id, record m { retire_prior_to = s })
    ]

-- `retire_scid` of a sequence number that was sent.
unfoldable pub retire_sent : ConnectionIdMgr → ℕ → List ℕ → Result (Option ℕ) × ConnectionIdMgr
unfolding remove
retire_sent m seq pkt_dcid = elim (remove m.scids seq) [
  | err e ↦ (err e, m)
  | panic ↦ (panic, m)
  | ok (o, d) ↦ retire_found o (record m { scids = d }) pkt_dcid
]

unfoldable pub retire_scid : ConnectionIdMgr → ℕ → List ℕ → Result (Option ℕ) × ConnectionIdMgr
unfolding retire_sent
retire_scid m seq pkt_dcid =
    if leb m.next_scid_seq seq then (err protocol_violation, m) else retire_sent m seq pkt_dcid

abbrev pub front : List ℕ → Option ℕ
front [] = none
front (s ∷ r) = some s

pub next_scid_to_advertise : ConnectionIdMgr → Option ℕ
next_scid_to_advertise m = front m.scids_to_advertise

pub next_dcid_to_retire : ConnectionIdMgr → Option ℕ
next_dcid_to_retire m = front m.dcids_to_retire

-- `u128::to_be_bytes`.
abbrev pub be128 : ℕ → List ℕ
be128 n = be64 (n / 2 ^ 64 % 2 ^ 64) ++ be64 (n % 2 ^ 64)

unfoldable pub create_new_connection_id_frame : ConnectionIdMgr → ℕ → Result Frame
create_new_connection_id_frame m seq = elim (get m.scids.queue seq) [
  | none ↦ err internal_error
  | some c ↦ elim c.reset_token [
    | none ↦ err internal_error
    | some t ↦ ok (new_connection_id seq m.retire_prior_to c.cid (be128 t))
  ]
]

pub need_send_cid_control_frames : ConnectionIdMgr → Bool
need_send_cid_control_frames m =
    not (length m.dcids_to_retire == 0) || not (length m.scids_to_advertise == 0)
