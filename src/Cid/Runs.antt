-- ===== src/Cid/Runs.antt =====
-- Runs of src/connection/cid.rs, and its theorems at concrete states.
use tquic.Base.{ℕ, ◌<◌, ◌≡◌, refl, arith, true, false, Option, none, some}
use tquic.Base.{List, [], ◌∷◌, ◌++◌}
use tquic.Error.{ok, err, protocol_violation, internal_error, connection_id_limit_error}
use tquic.Codec.{Writer, put, encode_varint_len}
use tquic.Frame.{Frame, new_connection_id, to_bytes, wire_len, one_rtt}
use tquic.Frame.Parse.{from_bytes}
use tquic.Cid.{
  ConnectionIdItem, ConnectionIdMgr, get, push, same_cid, take_out, remove, keep_from, lower_seqs,
  lower_paths,
}
use tquic.Cid.Mgr.{
  has, create, set_initial_dcid, mark_scid_to_advertise, add_fresh, add_scid, admit, retire_lower,
  add_new_dcid, add_dcid, find_dcid, too_many_to_retire, retire_found, retire_sent, retire_scid,
  lowest_from, create_new_connection_id_frame, be128,
}
use tquic.Cid.Seqs.{seqs}
use tquic.Cid.Valid.{IsValid, Kept}
use tquic.Cid.Trace.{here, next, retired, added, Reach-Kept}
use tquic.Cid.Retire.{retire_scid-stuck}
use tquic.Cid.Peer as P
use tquic.Cid.Frames.{
  receive, new_connection_id-exchanged, new_connection_id-refused, add_dcid-revives,
}

abbrev item : List ℕ → ℕ → Option ℕ → Option ℕ → ConnectionIdItem
item cid seq token path = record { cid = cid; seq = seq; reset_token = token; path_id = path }

abbrev start : ConnectionIdMgr
start = record {
  dcids = record { queue = []; capacity = 3 };
  scids = record { queue = item (1 ∷ 2 ∷ []) 0 none (some 0) ∷ []; capacity = 3 };
  dcid_limit = 2;
  scid_limit = 2;
  zero_length_scid = false;
  zero_length_dcid = false;
  next_scid_seq = 1;
  retire_prior_to = 0;
  scids_to_advertise = [];
  largest_peer_retire_prior_to = 0;
  dcids_to_retire = [];
}

creates : create 2 (1 ∷ 2 ∷ []) 0 none ≡ start
unfolding create
creates = refl

start-IsValid : IsValid start
unfolding seqs has
start-IsValid = record {
  ascending = omega arith;
  some_scid = omega arith;
  scid_room = omega arith;
  limit = omega arith;
  retired = omega arith;
  small = omega arith;
  distinct = tt;
  dcid_room = omega arith;
  dcid_some = omega arith;
}

-- The peer has provided its ids 0 and 1.
abbrev provided : ConnectionIdMgr
provided = record start {
  dcids = record {
    queue = item (7 ∷ []) 0 none (some 0) ∷ item (8 ∷ []) 1 (some 5) none ∷ [];
    capacity = 3;
  };
}

provides :
    add_dcid (set_initial_dcid start (7 ∷ []) none (some 0)) (8 ∷ []) 1 5 0 ≡ (ok [], provided)
unfolding add_dcid add_new_dcid admit push set_initial_dcid find_dcid same_cid has
provides = refl

-- The id 2 takes the others back.
abbrev renewed : ConnectionIdMgr
renewed = record start {
  dcids = record { queue = item (9 ∷ []) 2 (some 6) none ∷ []; capacity = 3 };
  largest_peer_retire_prior_to = 2;
  dcids_to_retire = 0 ∷ 1 ∷ [];
}

renews : add_dcid provided (9 ∷ []) 2 6 2 ≡ (ok ((0, 0) ∷ []), renewed)
unfolding add_dcid add_new_dcid admit push find_dcid same_cid has retire_lower keep_from lower_seqs
    lower_paths too_many_to_retire
renews = refl

add_dcid-revives_example :
    (o : ConnectionIdMgr) × (add_dcid renewed (8 ∷ []) 1 5 0 ≡ (ok [], o))
    × (has 1 (seqs o.dcids.queue) ≡ true)
    × (has 1 o.dcids_to_retire ≡ true)
    × (1 < o.largest_peer_retire_prior_to)
unfolding find_dcid same_cid has
add_dcid-revives_example =
    add_dcid-revives renewed (8 ∷ []) 1 5 0 refl refl refl (omega arith) (omega arith)

-- Two ids of our own more, the first of which takes back the one in use.
abbrev two_more : ConnectionIdMgr
two_more = record start {
  scids = record {
    queue =
        item (1 ∷ 2 ∷ []) 0 none (some 0)
        ∷ item (3 ∷ []) 1 (some 8) none
        ∷ item (4 ∷ []) 2 (some 9) none
        ∷ [];
    capacity = 3;
  };
  next_scid_seq = 3;
  retire_prior_to = 1;
  scids_to_advertise = 1 ∷ 2 ∷ [];
}

adds_two :
    add_scid (add_scid start (3 ∷ []) (some 8) true none true).1 (4 ∷ []) (some 9) true none true
    ≡ (ok 2, two_more)
unfolding add_scid add_fresh push mark_scid_to_advertise lowest_from
adds_two = refl

-- A third one does not fit, but takes the id 1 back, which was not sent yet.
abbrev one_less : ConnectionIdMgr
one_less = record two_more { retire_prior_to = 2 }

adds_no_third :
    add_scid two_more (5 ∷ []) (some 10) true none true ≡ (err connection_id_limit_error, one_less)
unfolding add_scid add_fresh push lowest_from
adds_no_third = refl

new_connection_id-refused_example :
    (f : Frame) × (create_new_connection_id_frame one_less 1 ≡ ok f)
    × (receive start f ≡ (err protocol_violation, start))
unfolding get find_dcid
new_connection_id-refused_example =
    new_connection_id-refused one_less start 1 8 (item (3 ∷ []) 1 (some 8) none) refl refl
      (omega arith) (omega arith) refl

abbrev room : Writer
room = record { written = []; room = 30 }

frame_len : wire_len (new_connection_id 1 1 (3 ∷ []) (be128 8)) ≡ ok 21
unfolding wire_len encode_varint_len
frame_len = refl

new_connection_id-exchanged_example :
    (f : Frame) × (bytes : List ℕ) × (create_new_connection_id_frame two_more 1 ≡ ok f)
    × (to_bytes f room ≡ ok (21, put room bytes))
    × (from_bytes (bytes ++ []) one_rtt ≡ ok (f, 21))
    × (receive start f ≡ add_dcid start (3 ∷ []) 1 8 1)
unfolding get
new_connection_id-exchanged_example =
    new_connection_id-exchanged two_more start 1 8 (item (3 ∷ []) 1 (some 8) none) room 21 [] refl
      refl (omega arith) (omega arith) frame_len (omega arith)

two_more-IsValid : IsValid two_more
unfolding seqs has
two_more-IsValid = record {
  ascending = omega arith;
  some_scid = omega arith;
  scid_room = omega arith;
  limit = omega arith;
  retired = omega arith;
  small = omega arith;
  distinct = tt;
  dcid_room = omega arith;
  dcid_some = omega arith;
}

abbrev given_back : ConnectionIdMgr
given_back = record two_more {
  scids = record {
    queue = item (3 ∷ []) 1 (some 8) none ∷ item (4 ∷ []) 2 (some 9) none ∷ [];
    capacity = 3;
  };
}

gives_back : retire_scid two_more 0 (3 ∷ []) ≡ (ok (some 0), given_back)
unfolding retire_scid retire_sent retire_found remove get take_out same_cid lowest_from
gives_back = refl

retire_scid-stuck_example :
    let o = mark_scid_to_advertise given_back 0 true in
    (has 0 o.scids_to_advertise ≡ true) × (create_new_connection_id_frame o 0 ≡ err internal_error)
retire_scid-stuck_example =
    retire_scid-stuck two_more given_back 0 (some 0) (3 ∷ []) two_more-IsValid gives_back

Reach-Kept_example :
    Kept start (retire_scid (add_scid start (3 ∷ []) (some 8) true none true).1 0 (3 ∷ [])).1
Reach-Kept_example =
    Reach-Kept start _ start-IsValid
      (next (next here (added (3 ∷ []) (some 8) true none true (omega arith))) (retired 0 (3 ∷ [])))
