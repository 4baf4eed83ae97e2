-- ===== src/Cid/Peer.antt =====
-- `add_dcid` of src/connection/cid.rs: the ids that the peer provides, and those that it takes back.
use tquic.Base.{ℕ, ◌*◌, ◌≤◌, ◌<◌, ◌≡◌, refl, max, Bool, true, false, ◌&&◌, ◌||◌, Option, none, some}
use tquic.Base.{List, [], ◌∷◌, length, ltb, leb, ◌==◌, if◌then◌else◌, ◌⊎◌}
use tquic.Error.{Error, Result, ok, err, panic, protocol_violation, connection_id_limit_error}
use tquic.Cid.{ConnectionIdItem, ConnectionIdMgr}
use tquic.Cid.Mgr.{has}
use tquic.Cid.Seqs.{seqs}

abbrev pub Answer : Type 0
Answer = Result (List (ℕ × ℕ)) × ConnectionIdMgr

-- Whether the number is in use or waits to be retired.
abbrev pub is_known : ConnectionIdMgr → ℕ → Bool
is_known m s = has s (seqs m.dcids.queue) || has s m.dcids_to_retire

if-holds :
    (P : Answer → Type 0) (c : Bool) (x y : Answer)
    → (c ≡ true → P x)
    → (c ≡ false → P y)
    → P (if c then x else y)
if-holds P true x y h k = h refl
if-holds P false x y h k = k refl

-- Nothing that was known is forgotten.
abbrev pub Keeps : ConnectionIdMgr → ConnectionIdMgr → Type 0
Keeps m o = (k : ℕ) → is_known m k ≡ true → is_known o k ≡ true

abbrev path_is : Option ℕ → ℕ → Bool
path_is none p = false
path_is (some x) p = x == p

-- Whether the path `p` uses the id with the number `k`.
unfoldable pub uses : ℕ → ℕ → List ConnectionIdItem → Bool
uses k p [] = false
uses k p (c ∷ r) = ((c.seq == k) && path_is c.path_id p) || uses k p r

unfoldable pub reported : ℕ → ℕ → List (ℕ × ℕ) → Bool
reported k p [] = false
reported k p ((s, x) ∷ r) = ((s == k) && (x == p)) || reported k p r

-- What a new id with the number `s` and the "Retire Prior To" value `n` makes of `m`.
pub record Renewed (m o : ConnectionIdMgr) (s n : ℕ) (paths : List (ℕ × ℕ)) : Type 0 where
  pub largest : o.largest_peer_retire_prior_to ≡ max m.largest_peer_retire_prior_to n
  pub active :
      (k : ℕ)
      → has k (seqs o.dcids.queue)
        ≡ ((has k (seqs m.dcids.queue) || (s == k)) && leb o.largest_peer_retire_prior_to k)
  pub retiring :
      (k : ℕ)
      → has k o.dcids_to_retire ≡ (
          has k m.dcids_to_retire
          || ((has k (seqs m.dcids.queue) || (s == k)) && ltb k o.largest_peer_retire_prior_to))
  pub affected :
      (k p : ℕ)
      → reported k p paths ≡ (uses k p m.dcids.queue && ltb k o.largest_peer_retire_prior_to)
  pub ordered : n ≤ s
  pub long : m.zero_length_dcid ≡ false
  pub bounded : length o.dcids_to_retire ≤ max (length m.dcids_to_retire) (m.dcid_limit * 4)

-- Why an error is given.
abbrev pub IsCause : ConnectionIdMgr → ℕ → ℕ → Error → ConnectionIdMgr → Type 0
IsCause m s n e o =
    ((e ≡ protocol_violation)
      × ((m.zero_length_dcid ≡ true) ⊎ ((s < n) ⊎ (m.dcid_limit * 4 < length o.dcids_to_retire))))
    ⊎ ((e ≡ connection_id_limit_error) × (length o.dcids.queue ≡ m.dcids.capacity))

abbrev pub Answered : ConnectionIdMgr → ℕ → ℕ → Answer → Type 0
Answered m s n (ok paths, o) = Renewed m o s n paths
Answered m s n (err e, o) = IsCause m s n e o × Keeps m o
Answered m s n (panic, o) = ⊥

-- No number that is in use lies below the largest "Retire Prior To" value.
abbrev pub IsFresh : ConnectionIdMgr → Type 0
IsFresh m = (k : ℕ) → has k (seqs m.dcids.queue) ≡ true → m.largest_peer_retire_prior_to ≤ k

module _ (m : ConnectionIdMgr) (cid : List ℕ) (s t n : ℕ)
    (unknown : has s (seqs m.dcids.queue) ≡ false) (idle : has s m.dcids_to_retire ≡ false)
    (fresh : IsFresh m) (long : m.zero_length_dcid ≡ false) where
  abbrev item : ConnectionIdItem
  item = record { cid = cid; seq = s; reset_token = some t; path_id = none }
