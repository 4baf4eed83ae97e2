-- ===== src/PacketNum/Encode.antt =====
-- The length that src/packet.rs chooses for a packet number is enough for the peer.
use tquic.Base.{ℕ, zero, suc, ◌+◌, ◌-◌, ◌*◌, ◌/◌, ◌%◌, ◌^◌, ◌≤◌, ◌<◌, ◌≡◌, arith}
use tquic.Base.{Option, some}
use native.Mathlib.Nat.{pow-suc, pow-le-pow_right}
use native.Mathlib.Decide.{dec_le}
use tquic.Codec.{Writer}
use tquic.Codec.Bytes.{
  WroteBack, write_u8-WroteBack, write_u16-WroteBack, write_u24-WroteBack, write_u32-WroteBack,
}
use tquic.PacketNum.{
  bit_length, num_unacked, packet_num_len, encode_packet_num, read_packet_num, decode_packet_num,
}
use tquic.PacketNum.Decode.{IsLen, one, two, three, four, decode_packet_num-mod}

bit_length-suc : (d n : ℕ) → bit_length (suc d) (suc n) ≡ suc (bit_length d (suc n / 2))
unfolding bit_length
bit_length-suc d n = ground arith

-- `bit_length` is the least number of digits that holds `n`.
bit_length_holds : (d n : ℕ) → n < 2 ^ d → n < 2 ^ bit_length d n
bit_length_holds zero n h = unfold bit_length in h
bit_length_holds (suc d) zero h = unfold bit_length in omega arith
bit_length_holds (suc d) (suc n) h = rw (bit_length-suc d n) (
    omega (
      arith,
      pow-suc 2 d,
      pow-suc 2 (bit_length d (suc n / 2)),
      bit_length_holds d (suc n / 2) (omega (arith, pow-suc 2 d)),
    ))

bit_length_least : (d n k : ℕ) → n < 2 ^ k → bit_length d n ≤ k
bit_length_least zero n k h = unfold bit_length in omega arith
bit_length_least (suc d) zero k h = unfold bit_length in omega arith
bit_length_least (suc d) (suc n) zero h = absurd (omega arith)
bit_length_least (suc d) (suc n) (suc k) h =
    rw (bit_length-suc d n)
      (omega (arith, bit_length_least d (suc n / 2) k (omega (arith, pow-suc 2 k))))

pow_mono : (i j : ℕ) → i ≤ j → 2 ^ i ≤ 2 ^ j
pow_mono i j h = pow-le-pow_right {n = 2} (omega arith) {i = i} {j = j} h

-- A field of that many digits and one more, in whole bytes.
window_of :
    (u bits : ℕ)
    → bits ≤ 31
    → u < 2 ^ bits
    → IsLen ((bits + 1 + 7) / 8) × (u < 2 ^ ((bits + 1 + 7) / 8 * 8) / 2)
window_of u bits h p = elim (dec_le bits 7) [
  | yes a ↦
      let e : (bits + 1 + 7) / 8 ≡ 1 = omega arith in rw e (one, omega (arith, pow_mono bits 7 a))
  | no a ↦ elim (dec_le bits 15) [
    | yes b ↦
        let e : (bits + 1 + 7) / 8 ≡ 2 = omega arith in
        rw e (two, omega (arith, pow_mono bits 15 b))
    | no b ↦ elim (dec_le bits 23) [
      | yes c ↦
          let e : (bits + 1 + 7) / 8 ≡ 3 = omega arith in
          rw e (three, omega (arith, pow_mono bits 23 c))
      | no c ↦
          let e : (bits + 1 + 7) / 8 ≡ 4 = omega arith in
          rw e (four, omega (arith, pow_mono bits 31 h))
    ]
  ]
]

-- Fewer than 2^31 outstanding numbers take one to four bytes, and they are fewer than half of the
-- numbers that those bytes tell apart.
pub packet_num_len_window :
    (pn : ℕ) (acked : Option ℕ)
    → num_unacked pn acked < 2 ^ 31
    → IsLen (packet_num_len pn acked)
      × (num_unacked pn acked < 2 ^ (packet_num_len pn acked * 8) / 2)
unfolding packet_num_len
packet_num_len_window pn acked h =
    window_of (num_unacked pn acked) (bit_length 64 (num_unacked pn acked))
      (bit_length_least 64 (num_unacked pn acked) 31 h)
      (bit_length_holds 64 (num_unacked pn acked) (omega arith))

encode-WroteBack :
    (pn len : ℕ) (w : Writer)
    → IsLen len
    → len ≤ w.room
    → WroteBack len (pn % 2 ^ (len * 8)) w (encode_packet_num pn len w) (read_packet_num len)
unfolding encode_packet_num read_packet_num
encode-WroteBack pn len w one room = write_u8-WroteBack (pn % 2 ^ 8) w room
encode-WroteBack pn len w two room = write_u16-WroteBack (pn % 2 ^ 16) w (omega arith) room
encode-WroteBack pn len w three room =
    let e : pn % 2 ^ 24 ≡ pn % 2 ^ 32 % 2 ^ 24 = omega arith in
    rw e (write_u24-WroteBack (pn % 2 ^ 32) w room)
encode-WroteBack pn len w four room = write_u32-WroteBack (pn % 2 ^ 32) w (omega arith) room

-- With fewer than 2^31 numbers outstanding, the peer that has processed a number from the last
-- acknowledged one up to `pn - 1` recovers `pn` from the field: the bytes that
-- `encode_packet_num` writes at the length of `packet_num_len` are read back, and decode to `pn`.
pub decode-encode :
    (pn largest acked : ℕ) (w : Writer)
    → pn < 2 ^ 62
    → acked ≤ largest
    → largest < pn
    → pn - acked < 2 ^ 31
    → 4 ≤ w.room
    → let len = packet_num_len pn (some acked) in
      WroteBack len (pn % 2 ^ (len * 8)) w (encode_packet_num pn len w) (read_packet_num len)
      × (decode_packet_num largest (pn % 2 ^ (len * 8)) len ≡ pn)
decode-encode pn largest acked w h a l u room =
    let (short, window) = packet_num_len_window pn (some acked) u in
    (
      encode-WroteBack pn (packet_num_len pn (some acked)) w short (fits short),
      decode_packet_num-mod largest pn (packet_num_len pn (some acked)) short h (omega arith)
          (omega (arith, window)) (positive short),
    )
  where
    fits : {len : ℕ} → IsLen len → len ≤ w.room
    fits one = omega arith
    fits two = omega arith
    fits three = omega arith
    fits four = room

    positive : {len : ℕ} → IsLen len → largest + 1 < pn + 2 ^ (len * 8) / 2
    positive one = omega arith
    positive two = omega arith
    positive three = omega arith
    positive four = omega arith
