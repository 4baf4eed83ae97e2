-- ===== src/PacketNum/Runs.antt =====
-- Runs of the packet number coding of src/packet.rs.
use tquic.Base.{◌%◌, ◌*◌, ◌^◌, ◌≡◌, refl, [], some, arith}
use tquic.Codec.{Writer}
use tquic.Codec.Bytes.{WroteBack}
use tquic.PacketNum.{
  bit_length, packet_num_len, candidate, decode_packet_num, encode_packet_num, read_packet_num,
}
use tquic.PacketNum.Encode.{decode-encode}

-- The example of RFC 9000, appendix A.3.
decode_rfc : decode_packet_num 0xa82f30ea 0x9b32 2 ≡ 0xa82f9b32
unfolding decode_packet_num candidate
decode_rfc = refl

len_rfc : packet_num_len 0xac5c02 (some 0xabe8b3) ≡ 2
unfolding packet_num_len bit_length
len_rfc = refl

abbrev fresh : Writer
fresh = record { written = []; room = 16 }

decode-encode_example :
    let len = packet_num_len 0xac5c02 (some 0xabe8b3) in
    WroteBack len
      (0xac5c02 % 2 ^ (len * 8))
      fresh
      (encode_packet_num 0xac5c02 len fresh)
      (read_packet_num len)
    × (decode_packet_num 0xabe8c0 (0xac5c02 % 2 ^ (len * 8)) len ≡ 0xac5c02)
decode-encode_example =
    decode-encode 0xac5c02 0xabe8c0 0xabe8b3 fresh (omega arith) (omega arith) (omega arith)
      (omega arith) (omega arith)
