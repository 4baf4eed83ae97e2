-- ===== src/StreamId.antt =====
-- src/connection/stream/stream_state.rs: what the two low bits of a stream id say.
use tquic.Base.{ℕ, Bool, bit_and, ◌==◌, if◌then◌else◌}

-- `id & 0x1` is 1 for streams that the server initiated.
unfoldable pub is_local : ℕ → Bool → Bool
is_local stream_id is_server = bit_and stream_id 0x1 == (if is_server then 1 else 0)

unfoldable pub is_bidi : ℕ → Bool
is_bidi stream_id = bit_and stream_id 0x2 == 0
