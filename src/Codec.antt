-- ===== src/Codec.antt =====
-- src/proto/bytes.rs: the wire format. `Decode` has the readers (`RukBuf`), `Encode` the writers
-- (`RukBufMut`), each over the crate's interface `Buf`; the other modules prove what holds of them.
pub mod Decode
pub mod Encode
pub mod Ensures
pub mod Address
pub mod Seqs
pub mod Fragments
pub mod Sizes
pub mod Total
pub mod RoundTrip
mod Tests
