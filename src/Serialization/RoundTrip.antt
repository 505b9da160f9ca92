-- ===== src/Serialization/RoundTrip.antt =====
-- Unmarshal undoes Marshal (serialization/marshal.go, serialization/unmarshal.go).
pub mod Steps
pub mod Parts
pub mod Slices
pub mod Scalars
pub mod Values
