-- ===== src/Pmtu/Attempts.antt =====
-- Rounds of probes of src/connection/pmtu.rs on a path of a given MTU.
use tquic.Base.{
  ℕ, zero, suc, ◌+◌, ◌≤◌, ◌<◌, ◌≡◌, refl, ap, ◌∙◌, arith, true, false, not, none, some,
}
use tquic.Base.{ltb, leb, if◌then◌else◌, max, ◌⊎◌, inl, inr}
use tquic.Pmtu.{
  Dplpmtud, cal_mtu_ceiling, cal_probe_size, check_finish, get_probe_size, on_pmtu_probe_sent,
  on_pmtu_probe_acked, on_pmtu_probe_lost,
}

-- One probe on a path that passes datagrams of up to `mtu` bytes.
unfoldable pub attempt : Dplpmtud → ℕ → ℕ → Dplpmtud
unfolding get_probe_size on_pmtu_probe_sent on_pmtu_probe_acked on_pmtu_probe_lost
attempt d peer_max mtu =
    let probe = get_probe_size d peer_max in
    let sent = on_pmtu_probe_sent probe.1 probe.0 in
    if leb probe.0 mtu
    then on_pmtu_probe_acked sent probe.0 peer_max
    else on_pmtu_probe_lost sent probe.0 peer_max

-- Probes as long as one is due, `fuel` at most.
unfoldable pub search : ℕ → Dplpmtud → ℕ → ℕ → Dplpmtud
search zero d peer_max mtu = d
search (suc fuel) d peer_max mtu =
    let rest = search fuel (attempt d peer_max mtu) peer_max mtu in
    if d.should_probe then rest else d

search-due :
    (n : ℕ) (d : Dplpmtud) (peer_max mtu : ℕ)
    → d.should_probe ≡ true
    → search (suc n) d peer_max mtu ≡ search n (attempt d peer_max mtu) peer_max mtu
unfolding search
search-due n d peer_max mtu e = simp e

-- The probe to send is a new one of size `p`, or is set to it already.
module _ (d : Dplpmtud) (peer_max mtu p : ℕ) (new : cal_probe_size d peer_max ≡ p)
    (probe : (d.probe_size ≡ none) ⊎ (d.probe_size ≡ some p)) where
  abbrev sent : ℕ → Dplpmtud
  sent n = record d { probe_size = some p; should_probe = false; probe_count = n }

  first : get_probe_size d peer_max ≡ (p, record d { probe_size = some p })
  unfolding get_probe_size
  first = elim probe [ inl e ↦ rw (e, new) | inr e ↦ rw e ]

  acked :
      leb p mtu ≡ true
      → attempt d peer_max mtu ≡ on_pmtu_probe_acked (sent d.probe_count) p peer_max
  unfolding attempt on_pmtu_probe_sent
  acked h = rw (first, h)

  lost :
      leb p mtu ≡ false
      → attempt d peer_max mtu ≡ on_pmtu_probe_lost (sent d.probe_count) p peer_max
  unfolding attempt on_pmtu_probe_sent
  lost h = rw (first, h)

  again :
      (n : ℕ)
      → ltb (n + 1) 3 ≡ true
      → on_pmtu_probe_lost (sent n) p peer_max ≡ record (sent (n + 1)) { should_probe = true }
  unfolding on_pmtu_probe_lost
  again n h = ground arith

  gone : on_pmtu_probe_lost (sent 2) p peer_max ≡ record (sent 0) {
    failed_size = p;
    probe_size = some (cal_probe_size (record d { failed_size = p }) peer_max);
    should_probe = not (check_finish (record d { failed_size = p }) peer_max);
  }
  unfolding on_pmtu_probe_lost
  gone = ground arith

-- What three losses in a row leave.
unfoldable pub lost_for_good : Dplpmtud → ℕ → ℕ → Dplpmtud
lost_for_good d peer_max p = record d {
  failed_size = p;
  probe_size = some (cal_probe_size (record d { failed_size = p }) peer_max);
  probe_count = 0;
  should_probe = not (check_finish (record d { failed_size = p }) peer_max);
}

-- What an acknowledgement leaves.
unfoldable pub passed : Dplpmtud → ℕ → ℕ → Dplpmtud
passed d peer_max p = record d {
  current_size = max d.current_size p;
  probe_size = some (cal_probe_size (record d { current_size = max d.current_size p }) peer_max);
  probe_count = 0;
  should_probe = not (check_finish (record d { current_size = max d.current_size p }) peer_max);
}

module _ (d : Dplpmtud) (peer_max mtu p : ℕ) (new : cal_probe_size d peer_max ≡ p)
    (probe : (d.probe_size ≡ none) ⊎ (d.probe_size ≡ some p)) (due : d.should_probe ≡ true) where
  pub search-acked :
      (n : ℕ)
      → p ≤ mtu
      → search (suc n) d peer_max mtu ≡ search n (passed d peer_max p) peer_max mtu
  unfolding on_pmtu_probe_acked passed
  search-acked n le =
      search-due n d peer_max mtu due
      ∙ ap (λ x. search n x peer_max mtu) (acked d peer_max mtu p new probe (ground (arith, le)))

  abbrev retry : ℕ → Dplpmtud
  retry n = record d { probe_size = some p; should_probe = true; probe_count = n }

  attempt-lost :
      (k n : ℕ) (x : Dplpmtud)
      → mtu < p
      → on_pmtu_probe_lost
          (record d { probe_size = some p; should_probe = false; probe_count = k })
          p
          peer_max
        ≡ x
      → search (suc n) (retry k) peer_max mtu ≡ search n x peer_max mtu
  unfolding cal_probe_size cal_mtu_ceiling
  attempt-lost k n x lt e =
      search-due n (retry k) peer_max mtu refl
      ∙ ap (λ y. search n y peer_max mtu)
          (lost (retry k) peer_max mtu p new (inr refl) (ground (arith, lt)) ∙ e)

  pub search-lost :
      (n : ℕ)
      → mtu < p
      → d.probe_count ≡ 0
      → search (suc (suc (suc n))) d peer_max mtu
        ≡ search n (lost_for_good d peer_max p) peer_max mtu
  unfolding lost_for_good
  search-lost n lt fresh =
      search-due (suc (suc n)) d peer_max mtu due
      ∙ ap (λ y. search (suc (suc n)) y peer_max mtu)
          (lost d peer_max mtu p new probe (ground (arith, lt))
            ∙ rw fresh (again d peer_max mtu p new probe 0 refl))
      ∙ attempt-lost 1 (suc n) _ lt (again d peer_max mtu p new probe 1 refl)
      ∙ attempt-lost 2 n _ lt (gone d peer_max mtu p new probe)

pub search-stop :
    (n : ℕ) (d : Dplpmtud) (peer_max mtu : ℕ) → d.should_probe ≡ false → search n d peer_max mtu ≡ d
unfolding search
search-stop zero d peer_max mtu e = refl
search-stop (suc n) d peer_max mtu e = simp e
