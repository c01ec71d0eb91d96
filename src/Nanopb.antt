-- ===== src/Nanopb.antt =====
-- The protocol buffer runtime of Pods/nanopb.
pub mod Error
pub mod Field
pub mod Iterator
pub mod Wire
pub mod Output
pub mod Input
pub mod Encode
pub mod Machine
pub mod FieldEncoders
pub mod Defaults
pub mod Arrays
pub mod Message
pub mod Decode
pub mod Decoder
pub mod RoundTrip
pub mod Examples
