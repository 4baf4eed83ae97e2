-- ===== src/Error.antt =====
-- src/error.rs: the error type and its codes; and `Result`.
use tquic.Base.{ℕ, ◌-◌, List}
use tquic.Base.Int.{ℤ, pos, negsuc}

-- The text of a private error does not reach the wire: it is a list of bytes.
pub data Error : Type 0 where
  no_error internal_error connection_refused flow_control_error stream_limit_error : Error
  stream_state_error final_size_error frame_encoding_error transport_parameter_error : Error
  connection_id_limit_error protocol_violation invalid_token application_error : Error
  crypto_buffer_exceeded key_update_error aead_limit_reached no_viable_path : Error
  crypto_error : ℕ → Error
  multipath_protocol_violation : Error
  done buffer_too_short unknown_version invalid_packet : Error
  invalid_state invalid_operation invalid_config : List ℕ → Error
  expired_token crypto_fail : Error
  tls_fail : List ℕ → Error
  stream_stopped stream_reset : ℕ → Error
  io_error : List ℕ → Error

pub to_wire : Error → ℕ
to_wire no_error = 0x0
to_wire internal_error = 0x1
to_wire connection_refused = 0x2
to_wire flow_control_error = 0x3
to_wire stream_limit_error = 0x4
to_wire stream_state_error = 0x5
to_wire final_size_error = 0x6
to_wire frame_encoding_error = 0x7
to_wire transport_parameter_error = 0x8
to_wire connection_id_limit_error = 0x9
to_wire protocol_violation = 0x0a
to_wire invalid_token = 0x0b
to_wire application_error = 0x0c
to_wire crypto_buffer_exceeded = 0x0d
to_wire key_update_error = 0x0e
to_wire aead_limit_reached = 0x0f
to_wire no_viable_path = 0x10
to_wire (crypto_error v) = v
to_wire multipath_protocol_violation = 0x1001d76d3ded42f3
to_wire _ = 0x0

-- -n, for n above 0.
abbrev minus : ℕ → ℤ
minus n = negsuc (n - 1)

pub to_errno : Error → ℤ
to_errno no_error = pos 0
to_errno internal_error = minus 1
to_errno connection_refused = minus 2
to_errno flow_control_error = minus 3
to_errno stream_limit_error = minus 4
to_errno stream_state_error = minus 5
to_errno final_size_error = minus 6
to_errno frame_encoding_error = minus 7
to_errno transport_parameter_error = minus 8
to_errno connection_id_limit_error = minus 9
to_errno protocol_violation = minus 10
to_errno invalid_token = minus 11
to_errno application_error = minus 12
to_errno crypto_buffer_exceeded = minus 13
to_errno key_update_error = minus 14
to_errno aead_limit_reached = minus 15
to_errno no_viable_path = minus 16
to_errno (crypto_error v) = minus 17
to_errno multipath_protocol_violation = minus 18
to_errno done = minus 100
to_errno buffer_too_short = minus 101
to_errno unknown_version = minus 102
to_errno invalid_packet = minus 103
to_errno (invalid_state s) = minus 104
to_errno (invalid_operation s) = minus 105
to_errno (invalid_config s) = minus 106
to_errno expired_token = minus 107
to_errno crypto_fail = minus 108
to_errno (tls_fail s) = minus 109
to_errno (stream_stopped e) = minus 110
to_errno (stream_reset e) = minus 111
to_errno (io_error s) = minus 112

-- `Result<T, Error>`; `panic` is no value of it: the code stops (`unreachable!()`).
pub data Result {ℓ} (A : Type ℓ) : Type ℓ where
  ok : A → Result A
  err : Error → Result A
  panic : Result A

infixl 5 ◌>>=◌
abbrev pub ◌>>=◌ {ℓ κ} : {A : Type ℓ} {B : Type κ} → Result A → (A → Result B) → Result B
ok a >>= f = f a
err e >>= f = err e
panic >>= f = panic
