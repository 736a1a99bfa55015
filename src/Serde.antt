-- ===== src/Serde.antt =====
-- The BeeSerde wire format (shared/src/bee_serde.rs) and its state.
pub mod Words
pub mod Header
pub mod Serializer
pub mod Deserializer
pub mod Writes
pub mod Reads
pub mod RoundTrip
pub mod Format
