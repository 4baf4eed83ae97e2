-- ===== src/Codec/Runs.antt =====
-- Runs of src/codec.rs at concrete buffers.
use tquic.Base.{ℕ, ◌%◌, ◌^◌, ◌≡◌, refl, List, [], ◌∷◌, arith}
use tquic.Error.{ok}
use tquic.Codec.{Writer, write_varint, read_varint, write_u24, read_u24}
use tquic.Codec.Bytes.{WroteBack, write_u24-WroteBack}
use tquic.Codec.Varint.{Fits, write_varint-WroteBack}

abbrev fresh : Writer
fresh = record { written = []; room = 16 }

abbrev two_bytes : List ℕ
two_bytes = 7 ∷ 9 ∷ []

-- The examples of RFC 9000, appendix A.1.
read_four : read_varint (0x9d ∷ 0x7f ∷ 0x3e ∷ 0x7d ∷ []) ≡ ok (494878333, [])
unfolding read_varint
read_four = refl

read_padded : read_varint (0x40 ∷ 0x25 ∷ []) ≡ ok (37, [])
unfolding read_varint
read_padded = refl

write_two : write_varint 15293 fresh ≡ ok (2, record { written = 0x7b ∷ 0xbd ∷ []; room = 14 })
unfolding write_varint
write_two = refl

write_u24-WroteBack_example :
    WroteBack 3 (0x123456 % 2 ^ 24) fresh (write_u24 0x123456 fresh) read_u24
write_u24-WroteBack_example = write_u24-WroteBack 0x123456 fresh (omega arith)

write_varint-WroteBack_example :
    (len : ℕ) × Fits 494878333 len
    × WroteBack len 494878333 fresh (write_varint 494878333 fresh) read_varint
write_varint-WroteBack_example = write_varint-WroteBack 494878333 fresh (omega arith) (omega arith)
