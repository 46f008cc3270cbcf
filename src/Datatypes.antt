-- ===== src/Datatypes.antt =====
-- pygridgain/datatypes: the binary format of values. A stream is the list of the bytes from its
-- position on; to write is to give the bytes that go to the end of the stream.
pub mod Wire
pub mod Context
pub mod Times
pub mod Scalars
pub mod Binary
pub mod Classes
pub mod Values
