-- ===== src/RecvBuf/Runs.antt =====
-- Runs of src/connection/stream/recv_buf.rs, and its theorems at concrete buffers.
use tquic.Base.{
  ℕ, ◌+◌, ◌<◌, ◌≡◌, refl, arith, List, [], ◌∷◌, length, Bool, true, false, some, none, ◌⊎◌,
  get_elem?, suc, zero,
}
use tquic.Error.{Result, ok, err, panic, done}
use tquic.RangeBuf.{new}
use tquic.RecvBuf.{
  RecvBuf, write, write_buf, write_accepted, write_loop, skip_read, store, scan_from, scan, look,
  range_from, bt_insert, refused, read, read_some, read_chunks,
}
use tquic.RecvBuf.Chunks.{held, byte_at}
use tquic.RecvBuf.Fill.{IsValid}
use tquic.RecvBuf.Write.{Accepted, write-Accepted}
use tquic.RecvBuf.Deliver.{here, next, arrive, deliver, Follows, Served, Trace-Served}
use tquic.RecvBuf.Progress.{read_progress}

abbrev empty : RecvBuf
empty = record {
  chunks = [];
  read_off = 0;
  recv_off = 0;
  fin_off = none;
  error = none;
  shutdown = false;
  flow_control = record {
    read_off = 0;
    recv_off = 0;
    max_data = 100;
    window = 100;
    max_window = 100;
    last_updated = none;
  };
}

abbrev get : Result RecvBuf → RecvBuf
get (ok s) = s
get (err e) = empty
get panic = empty

-- [2, 4) and then [0, 5) of the stream 10, 11, 12, …, with the end at 5.
abbrev gap : RecvBuf
gap = get (write empty 2 (12 ∷ 13 ∷ []) false)

abbrev full : RecvBuf
full = get (write gap 0 (10 ∷ 11 ∷ 99 ∷ 99 ∷ 14 ∷ []) true)

not_yet : (read gap 9).0 ≡ err done
unfolding write write_buf write_accepted write_loop skip_read store scan_from scan look range_from
    bt_insert refused read read_some read_chunks
not_yet = refl

in_order : (read full 9).0 ≡ ok (10 ∷ 11 ∷ 12 ∷ 13 ∷ 14 ∷ [], true)
unfolding write write_buf write_accepted write_loop skip_read store scan_from scan look range_from
    bt_insert refused read read_some read_chunks
in_order = refl

abbrev stream : ℕ → ℕ
stream x = 10 + x

-- [2, 4) is held.
abbrev gapped : RecvBuf
gapped = record empty { chunks = (4, new (12 ∷ 13 ∷ []) 2 false) ∷ []; recv_off = 4 }

gapped-IsValid : IsValid gapped
gapped-IsValid = omega arith

fits : refused gapped (new (10 ∷ 11 ∷ 12 ∷ []) 0 false) ≡ none
unfolding refused
fits = refl

write-Accepted_example :
    (t : RecvBuf) × (write gapped 0 (10 ∷ 11 ∷ 12 ∷ []) false ≡ ok t)
    × Accepted gapped t (new (10 ∷ 11 ∷ 12 ∷ []) 0 false)
write-Accepted_example =
    write-Accepted gapped 0 (10 ∷ 11 ∷ 12 ∷ []) false gapped-IsValid tt refl (omega arith) fits

-- [0, 4) is held.
abbrev filled : RecvBuf
filled = record empty {
  chunks = (2, new (10 ∷ 11 ∷ []) 0 false) ∷ (4, new (12 ∷ 13 ∷ []) 2 false) ∷ [];
  recv_off = 4;
}

fills : write gapped 0 (10 ∷ 11 ∷ 12 ∷ []) false ≡ ok filled
unfolding write write_buf write_accepted write_loop skip_read store scan_from scan look range_from
    bt_insert refused
fills = refl

gapped-Follows : Follows stream gapped
unfolding held byte_at
gapped-Follows = record {
  valid = gapped-IsValid;
  final_ok = tt;
  running = refl;
  agrees = λ x h. agrees x h;
}
  where
    agrees : (x : ℕ) → held gapped.chunks x ≡ true → byte_at gapped.chunks x ≡ some (stream x)
    agrees zero h = cc
    agrees (suc zero) h = cc
    agrees (suc (suc zero)) h = refl
    agrees (suc (suc (suc zero))) h = refl
    agrees (suc (suc (suc (suc x)))) h = absurd (ground arith)

carries : (i : ℕ) → i < 3 → get_elem? (10 ∷ 11 ∷ 12 ∷ []) i ≡ some (stream (0 + i))
carries zero h = refl
carries (suc zero) h = refl
carries (suc (suc zero)) h = refl
carries (suc (suc (suc i))) h = absurd (omega arith)

reads_three : (read filled 3).0 ≡ ok (10 ∷ 11 ∷ 12 ∷ [], false)
unfolding read read_some read_chunks
reads_three = refl

Trace-Served_example : Served stream gapped (10 ∷ 11 ∷ 12 ∷ []) (read filled 3).1
Trace-Served_example = Trace-Served stream gapped-Follows (
    next
      (next here (arrive gapped filled 0 (10 ∷ 11 ∷ 12 ∷ []) false (omega arith) carries fits fills)
        refl)
      (deliver filled 3 (10 ∷ 11 ∷ 12 ∷ []) false reads_three) refl)

filled_there : held filled.chunks 0 ≡ true
unfolding held
filled_there = refl

read_progress_example :
    (bytes : List ℕ) × (fin : Bool) × ((read filled 3).0 ≡ ok (bytes, fin))
    × (0 < length bytes)
    × ((length bytes ≡ 3) ⊎ (held filled.chunks (0 + length bytes) ≡ false))
read_progress_example = read_progress filled 3 (omega arith) refl filled_there (omega arith)
