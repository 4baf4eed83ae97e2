-- ===== src/Frame/Kinds.antt =====
-- What the connection asks about a frame of src/frame.rs, and the room that a header takes.
use tquic.Base.{ℕ, ◌+◌, Bool, true, false}
use tquic.Base.{[], ◌∷◌}
use tquic.Error.{Result}
use tquic.Frame.{
  Frame, paddings, ack, connection_close, application_close, new_connection_id, path_challenge,
  path_response, lens,
}

pub ack_eliciting : Frame → Bool
ack_eliciting (paddings len) = false
ack_eliciting (ack ack_delay ack_ranges ecn) = false
ack_eliciting (application_close error_code reason) = false
ack_eliciting (connection_close error_code frame_type reason) = false
ack_eliciting _ = true

pub probing : Frame → Bool
probing (paddings len) = true
probing (new_connection_id seq_num retire_prior_to conn_id reset_token) = true
probing (path_challenge bytes) = true
probing (path_response bytes) = true
probing _ = false

pub crypto_header_wire_len : ℕ → Result ℕ
crypto_header_wire_len offset = lens (1 + 2) (offset ∷ [])

pub stream_header_wire_len : ℕ → ℕ → Result ℕ
stream_header_wire_len stream_id offset = lens (1 + 2) (stream_id ∷ offset ∷ [])
