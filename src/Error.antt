-- ===== src/Error.antt =====
-- src/error.rs: the errors of the byte reader and of a connection's layer. The text of an
-- `InvalidData` is kept; the standard library's and the socket's errors are numbers that name them.
use Prim.Native.String.{String}
use ruknet.Base.{ℕ}

-- `bytes::TryGetError`: how much was asked for, and how much there was.
pub record TryGetError : Type 0 where
  pub requested : ℕ
  pub available : ℕ

pub data RukBytesError : Type 0 where
  try_get : TryGetError → RukBytesError
  utf8 : ℕ → RukBytesError
  from_utf8 : ℕ → RukBytesError
  invalid_data : String → RukBytesError

pub data BufferOverflowError : Type 0 where
  overflowed : BufferOverflowError

pub data LayerError : Type 0 where
  ruk_bytes : RukBytesError → LayerError
  buffer_overflow : BufferOverflowError → LayerError
  failed_to_send : ℕ → LayerError

pub data PeerError : Type 0 where
  ruk_bytes : RukBytesError → PeerError
  invalid_address : PeerError
  failed_to_bind : ℕ → PeerError
  already_listening : PeerError
  already_connecting : PeerError
  invalid_packet : String → PeerError
  failed_to_send : ℕ → PeerError
