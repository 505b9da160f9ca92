-- ===== src/Transport.antt =====
-- The package transport: frames, message headers, messages and the table of pending requests.
pub mod Frame
pub mod Headers
pub mod Message
pub mod RequestTable
pub mod Conn
pub mod Piper
pub mod Tls
mod Tests
