-- ===== src/Serialization.antt =====
-- The package serialization: the Fabric binary format.
pub mod State
pub mod TypeMeta
pub mod Compress
pub mod Utf16
pub mod Guid
pub mod GoType
pub mod Marshal
pub mod Unmarshal
pub mod RoundTrip
mod Tests
