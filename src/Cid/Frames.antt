-- ===== src/Cid/Frames.antt =====
-- NEW_CONNECTION_ID frames between two endpoints: made by src/connection/cid.rs, carried by
-- src/frame.rs, and received by src/connection/recv.rs.
use tquic.Base.{
  ℕ, ◌+◌, ◌*◌, ◌/◌, ◌%◌, ◌^◌, ◌≤◌, ◌<◌, ◌≡◌, refl, ap, ◌∙◌, arith, Bool, true, false, Option, none,
  some,
}
use tquic.Base.{List, [], ◌∷◌, ◌++◌, length, if◌then◌else◌, lt→ltb}
use tquic.Error.{Result, ok, err, protocol_violation, internal_error}
use tquic.Codec.{Writer, put, be64}
use tquic.Frame.{Frame, new_connection_id, to_bytes, wire_len, one_rtt}
use tquic.Frame.Parse.{from_bytes}
use tquic.Frame.RoundTrip.{from_bytes-to_bytes}
use tquic.Cid.{push, ConnectionIdItem, ConnectionIdMgr, get}
use tquic.Cid.Mgr.{
  has, find_dcid, add_dcid, add_new_dcid, admit, create_new_connection_id_frame, be128,
}
use tquic.Cid.Seqs.{seqs-append, seqs, has-append}
use tquic.Cid.Peer.{Answer}

-- `u128::from_be_bytes`.
pub from_be : ℕ → List ℕ → ℕ
from_be n [] = n
from_be n (x ∷ r) = from_be (n * 2 ^ 8 + x) r

-- A NEW_CONNECTION_ID frame is received; other frames do not come here.
unfoldable pub receive : ConnectionIdMgr → Frame → Answer
receive m (new_connection_id seq_num retire_prior_to conn_id reset_token) =
    if m.zero_length_dcid
    then (err protocol_violation, m)
    else add_dcid m conn_id seq_num (from_be 0 reset_token) retire_prior_to
receive m _ = (ok [], m)

from_be-be64 :
    (n a : ℕ) (r : List ℕ) → a < 2 ^ 64 → from_be n (be64 a ++ r) ≡ from_be (n * 2 ^ 64 + a) r
unfolding from_be
from_be-be64 n a r h = ap (λ z. from_be z r) (omega arith)

from_be-be128 : (t : ℕ) → t < 2 ^ 128 → from_be 0 (be128 t) ≡ t
unfolding from_be
from_be-be128 t h =
    from_be-be64 0 (t / 2 ^ 64 % 2 ^ 64) (be64 (t % 2 ^ 64)) (omega arith)
    ∙ from_be-be64 (0 * 2 ^ 64 + t / 2 ^ 64 % 2 ^ 64) (t % 2 ^ 64) [] (omega arith)
    ∙ omega arith

created :
    (m : ConnectionIdMgr) (seq t : ℕ) (c : ConnectionIdItem)
    → get m.scids.queue seq ≡ some c
    → c.reset_token ≡ some t
    → create_new_connection_id_frame m seq
      ≡ ok (new_connection_id seq m.retire_prior_to c.cid (be128 t))
unfolding create_new_connection_id_frame
created m seq t c e f = ap made e ∙ ap (with_token c) f
  where
    with_token : ConnectionIdItem → Option ℕ → Result Frame
    with_token d none = err internal_error
    with_token d (some u) = ok (new_connection_id seq m.retire_prior_to d.cid (be128 u))

    made : Option ConnectionIdItem → Result Frame
    made none = err internal_error
    made (some d) = with_token d d.reset_token

received :
    (peer : ConnectionIdMgr) (x y t : ℕ) (cid : List ℕ)
    → t < 2 ^ 128
    → receive peer (new_connection_id x y cid (be128 t)) ≡ add_dcid peer cid x t y
unfolding receive add_dcid
received peer x y t cid h =
    ap
      (λ u.
        if peer.zero_length_dcid then (err protocol_violation, peer) else add_dcid peer cid x u y)
      (from_be-be128 t h)
    ∙ again peer.zero_length_dcid _ _
  where
    again :
        {A : Type 0}
        → (b : Bool) (x y : A) → (if b then x else (if b then x else y)) ≡ (if b then x else y)
    again true x y = refl
    again false x y = refl

-- The scid `seq` is there, with an id of no more than 20 bytes and a reset token; its frame is made,
-- written with the room of `wire_len`, and read by the peer, whatever follows; what the peer then does
-- is `add_dcid` of the very id, number, token and `retire_prior_to`.
pub new_connection_id-exchanged :
    (m peer : ConnectionIdMgr) (seq t : ℕ) (c : ConnectionIdItem) (w : Writer) (n : ℕ)
    (rest : List ℕ)
    → get m.scids.queue seq ≡ some c
    → c.reset_token ≡ some t
    → (t < 2 ^ 128) × (length c.cid ≤ 20)
    → (seq < 2 ^ 62) × (m.retire_prior_to < 2 ^ 62)
    → wire_len (new_connection_id seq m.retire_prior_to c.cid (be128 t)) ≡ ok n
    → n ≤ w.room
    → (f : Frame) × (bytes : List ℕ) × (create_new_connection_id_frame m seq ≡ ok f)
      × (to_bytes f w ≡ ok (n, put w bytes))
      × (from_bytes (bytes ++ rest) one_rtt ≡ ok (f, n))
      × (receive peer f ≡ add_dcid peer c.cid seq t m.retire_prior_to)
new_connection_id-exchanged m peer seq t c w n rest e f small bound len room =
    let frame = new_connection_id seq m.retire_prior_to c.cid (be128 t) in
    let (bytes, wrote, width, back) =
      from_bytes-to_bytes frame w n rest (bound.0, bound.1, small.1, refl) len room tt in
    (
      frame,
      bytes,
      created m seq t c e f,
      wrote,
      back,
      received peer seq m.retire_prior_to t c.cid small.0,
    )

-- The frame of a scid whose number is below `retire_prior_to`, as an id that still waits to be sent, or
-- to be sent again, when `retire_prior_to` grows, is refused: a peer that does not know the id answers
-- with PROTOCOL_VIOLATION.
pub new_connection_id-refused :
    (m peer : ConnectionIdMgr) (seq t : ℕ) (c : ConnectionIdItem)
    → get m.scids.queue seq ≡ some c
    → c.reset_token ≡ some t
    → t < 2 ^ 128
    → seq < m.retire_prior_to
    → find_dcid peer.dcids.queue c.cid seq ≡ none
    → (f : Frame) × (create_new_connection_id_frame m seq ≡ ok f)
      × (receive peer f ≡ (err protocol_violation, peer))
unfolding add_dcid add_new_dcid
new_connection_id-refused m peer seq t c e f h low new = (
  new_connection_id seq m.retire_prior_to c.cid (be128 t),
  created m seq t c e f,
  received peer seq m.retire_prior_to t c.cid h
      ∙ rw (new, lt→ltb seq m.retire_prior_to low) (either peer.zero_length_dcid),
)
  where
    either :
        (b : Bool)
        → ◌≡◌ {A = Answer}
            (if b then (err protocol_violation, peer) else (err protocol_violation, peer))
            (err protocol_violation, peer)
    either true = refl
    either false = refl

-- The number of an id waits to be retired, and the id is not in use: when its frame comes again, and
-- there is room, the id is put to use although it lies below the largest "Retire Prior To" value, and
-- its retirement is still to be announced.
pub add_dcid-revives :
    (m : ConnectionIdMgr) (cid : List ℕ) (s t n : ℕ)
    → m.zero_length_dcid ≡ false
    → find_dcid m.dcids.queue cid s ≡ none
    → has s m.dcids_to_retire ≡ true
    → (n ≤ s) × (s < m.largest_peer_retire_prior_to)
    → length m.dcids.queue < m.dcids.capacity
    → (o : ConnectionIdMgr) × (add_dcid m cid s t n ≡ (ok [], o))
      × (has s (seqs o.dcids.queue) ≡ true)
      × (has s o.dcids_to_retire ≡ true)
      × (s < o.largest_peer_retire_prior_to)
unfolding add_dcid add_new_dcid admit push
add_dcid-revives m cid s t n z e waits h room =
    let item : ConnectionIdItem = record {
      cid = cid;
      seq = s;
      reset_token = some t;
      path_id = none;
    } in
    (
      record m { dcids = record m.dcids { queue = m.dcids.queue ++ (item ∷ []) } },
      ground (arith, z, e, waits, h, room),
      ap (λ q. has s q) (seqs-append m.dcids.queue item)
          ∙ ground (arith, has-append s s (seqs m.dcids.queue)),
      waits,
      h.1,
    )
