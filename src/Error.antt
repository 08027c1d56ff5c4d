-- ===== src/Error.antt =====
-- src/error.rs: the errors of the crate. An `io::Error` is its kind and its message.
use chatix_protocol.Base.{ℕ, String, List, [], ◌∷◌, Result, ok, err, panic}

-- The kinds of `std::io::ErrorKind` that the crate makes, or receives from a stream.
pub data ErrorKind : Type 0 where
  invalid_data invalid_input unexpected_eof write_zero other_kind : ErrorKind

-- A formatted message is the sequence of what `format!` prints.
pub data Piece : Type 0 where
  text : String → Piece
  number : ℕ → Piece

pub record IoError : Type 0 where
  pub kind : ErrorKind
  pub message : List Piece

-- `Error::new(ErrorKind::InvalidData, …)`
abbrev pub data_error : String → IoError
data_error s = record { kind = invalid_data; message = text s ∷ [] }

abbrev pub input_error : String → IoError
input_error s = record { kind = invalid_input; message = text s ∷ [] }

-- A message that ends in a number.
abbrev pub data_error_at : String → ℕ → IoError
data_error_at s n = record { kind = invalid_data; message = text s ∷ number n ∷ [] }

abbrev pub IoResult : Type 0 → Type 0
IoResult A = Result IoError A

pub data ProtocolError : Type 0 where
  invalid_magic : ProtocolError
  unsupported_version : ℕ → ProtocolError
  invalid_header_length : ProtocolError
  payload_too_large : (size max : ℕ) → ProtocolError
  reserved_field_non_zero : ProtocolError
  unknown_packet_type : ℕ → ProtocolError
  invalid_state_transition : ProtocolError
  payload_decode : (packet reason : String) → ProtocolError
  sequence_violation : (got last : ℕ) → ProtocolError
  encryption_required : ProtocolError
  crypto_error : ProtocolError
  identity_key_changed : List ℕ → ProtocolError
  io : IoError → ProtocolError

-- `#[from] std::io::Error`: what `?` does to the error of a stream.
abbrev pub from_io {ℓ} : {A : Type ℓ} → Result IoError A → Result ProtocolError A
from_io (ok a) = ok a
from_io (err e) = err (io e)
from_io panic = panic
