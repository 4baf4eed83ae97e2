-- ===== src/Cid.antt =====
-- src/connection/cid.rs: the connection ids of a connection.
-- A connection id is the list of its bytes. The state that stands beside an error is the one that the
-- operation leaves.
pub mod Mgr
pub mod Seqs
pub mod Valid
pub mod Added
pub mod Removed
pub mod Trace
pub mod Retire
pub mod Peer
pub mod Frames
mod Runs
use tquic.Base.{
  ℕ, ◌+◌, ◌-◌, ◌*◌, ◌/◌, ◌%◌, ◌^◌, Bool, true, false, not, ◌&&◌, ◌||◌, Option, none, some,
}
use tquic.Base.{List, [], ◌∷◌, ◌++◌, length, min, max, ltb, leb, ◌==◌, if◌then◌else◌, add64}
use tquic.Error.{Result, ok, err, internal_error, connection_id_limit_error, protocol_violation}
use tquic.Codec.{be64}
use tquic.Frame.{Frame, new_connection_id}

pub record ConnectionIdItem : Type 0 where
  pub cid : List ℕ
  pub seq : ℕ
  pub reset_token : Option ℕ
  pub path_id : Option ℕ

pub record ConnectionIdDeque : Type 0 where
  pub queue : List ConnectionIdItem
  pub capacity : ℕ

pub record ConnectionIdMgr : Type 0 where
  pub dcids : ConnectionIdDeque
  pub scids : ConnectionIdDeque
  pub dcid_limit : ℕ
  pub scid_limit : ℕ
  pub zero_length_scid : Bool
  pub zero_length_dcid : Bool
  pub next_scid_seq : ℕ
  pub retire_prior_to : ℕ
  pub scids_to_advertise : List ℕ
  pub largest_peer_retire_prior_to : ℕ
  pub dcids_to_retire : List ℕ

-- `==` on connection ids.
unfoldable pub same_cid : List ℕ → List ℕ → Bool
same_cid [] [] = true
same_cid (x ∷ r) (y ∷ s) = (x == y) && same_cid r s
same_cid _ _ = false

-- `==` on optional numbers.
abbrev pub same_token : Option ℕ → Option ℕ → Bool
same_token none none = true
same_token (some x) (some y) = x == y
same_token _ _ = false

abbrev pub is_none : Option ℕ → Bool
is_none none = true
is_none (some x) = false

abbrev pub is_empty_cid : List ℕ → Bool
is_empty_cid [] = true
is_empty_cid (x ∷ r) = false

-- The operations of `ConnectionIdDeque`, on the queue.
unfoldable pub get : List ConnectionIdItem → ℕ → Option ConnectionIdItem
get [] seq = none
get (c ∷ r) seq = if c.seq == seq then some c else get r seq

unfoldable pub set_path : List ConnectionIdItem → ℕ → ℕ → List ConnectionIdItem
set_path [] seq path_id = []
set_path (c ∷ r) seq path_id =
    let rest = set_path r seq path_id in
    if c.seq == seq then record c { path_id = some path_id } ∷ r else c ∷ rest

unfoldable pub take_out : List ConnectionIdItem → ℕ → List ConnectionIdItem
take_out [] seq = []
take_out (c ∷ r) seq = let rest = take_out r seq in if c.seq == seq then r else c ∷ rest

unfoldable pub push : ConnectionIdDeque → ConnectionIdItem → Result ConnectionIdDeque
push d c =
    if length d.queue == d.capacity
    then err connection_id_limit_error
    else ok (record d { queue = d.queue ++ (c ∷ []) })

abbrev pub is_some : Option ConnectionIdItem → Bool
is_some none = false
is_some (some c) = true

unfoldable pub remove : ConnectionIdDeque → ℕ → Result (Option ConnectionIdItem × ConnectionIdDeque)
remove d seq =
    if length d.queue == 0
    then err internal_error
    else if (length d.queue == 1) && is_some (get d.queue seq)
    then err internal_error
    else ok (get d.queue seq, record d { queue = take_out d.queue seq })

-- `remove_lower`: what it keeps, the sequence numbers of the others, and their paths.
unfoldable pub keep_from : ℕ → List ConnectionIdItem → List ConnectionIdItem
keep_from n [] = []
keep_from n (c ∷ r) = let rest = keep_from n r in if ltb c.seq n then rest else c ∷ rest

unfoldable pub lower_seqs : ℕ → List ConnectionIdItem → List ℕ
lower_seqs n [] = []
lower_seqs n (c ∷ r) = let rest = lower_seqs n r in if ltb c.seq n then c.seq ∷ rest else rest

unfoldable pub lower_paths : ℕ → List ConnectionIdItem → List (ℕ × ℕ)
lower_paths n [] = []
lower_paths n (c ∷ r) =
    let rest = lower_paths n r in
    if ltb c.seq n then elim c.path_id [ none ↦ rest | some p ↦ (c.seq, p) ∷ rest ] else rest

abbrev pub enlarge : ConnectionIdDeque → ℕ → ConnectionIdDeque
enlarge d capacity = record d { capacity = max d.capacity capacity }
