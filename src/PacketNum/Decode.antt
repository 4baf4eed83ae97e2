-- ===== src/PacketNum/Decode.antt =====
-- `decode_packet_num` of src/packet.rs finds the packet number that was truncated.
use tquic.Base.{ℕ, ◌+◌, ◌*◌, ◌/◌, ◌%◌, ◌^◌, ◌≤◌, ◌<◌, ◌≡◌, ap, ◌∙◌, arith}
use tquic.Base.{bit_or}
use tquic.Base.Fields.{bit_and_field, bit_or_fields, bit_or_comm}
use tquic.PacketNum.{candidate, decode_packet_num}

-- A field of one to four bytes.
pub data IsLen : ℕ → Type 0 where
  one : IsLen 1
  two : IsLen 2
  three : IsLen 3
  four : IsLen 4

-- The candidate takes the high digits of the expected number.
candidate_eq :
    (expected truncated len : ℕ)
    → IsLen len
    → expected < 2 ^ 64
    → truncated < 2 ^ (len * 8)
    → candidate expected truncated (2 ^ (len * 8))
      ≡ expected / 2 ^ (len * 8) * 2 ^ (len * 8) + truncated
unfolding candidate
candidate_eq e t len one h p =
    ap (λ x. bit_or x t) (bit_and_field e 8 56)
    ∙ bit_or_comm _ t
    ∙ bit_or_fields _ t 8 p
    ∙ omega arith
candidate_eq e t len two h p =
    ap (λ x. bit_or x t) (bit_and_field e 16 48)
    ∙ bit_or_comm _ t
    ∙ bit_or_fields _ t 16 p
    ∙ omega arith
candidate_eq e t len three h p =
    ap (λ x. bit_or x t) (bit_and_field e 24 40)
    ∙ bit_or_comm _ t
    ∙ bit_or_fields _ t 24 p
    ∙ omega arith
candidate_eq e t len four h p =
    ap (λ x. bit_or x t) (bit_and_field e 32 32)
    ∙ bit_or_comm _ t
    ∙ bit_or_fields _ t 32 p
    ∙ omega arith

-- The packet number is recovered from its low bytes, if it is within half a window of the number
-- that follows the largest one processed.
pub decode_packet_num-mod :
    (largest pn len : ℕ)
    → IsLen len
    → pn < 2 ^ 62
    → largest < 2 ^ 62
    → pn ≤ largest + 1 + 2 ^ (len * 8) / 2
    → largest + 1 < pn + 2 ^ (len * 8) / 2
    → decode_packet_num largest (pn % 2 ^ (len * 8)) len ≡ pn
unfolding decode_packet_num
decode_packet_num-mod largest pn len one h p lo hi =
    ground (arith, candidate_eq (largest + 1) (pn % 2 ^ 8) 1 one (omega arith) (omega arith))
decode_packet_num-mod largest pn len two h p lo hi =
    ground (arith, candidate_eq (largest + 1) (pn % 2 ^ 16) 2 two (omega arith) (omega arith))
decode_packet_num-mod largest pn len three h p lo hi =
    ground (arith, candidate_eq (largest + 1) (pn % 2 ^ 24) 3 three (omega arith) (omega arith))
decode_packet_num-mod largest pn len four h p lo hi =
    ground (arith, candidate_eq (largest + 1) (pn % 2 ^ 32) 4 four (omega arith) (omega arith))
