-- ===== src/Lease/Serialize.antt =====
-- lease/serialize.go and the Message of lease/message.go: the layout of lease messages.
--
-- A struct is given to encoding/binary as its fields, each a width in bytes and a value; the blank
-- fields are zeros. Integers are patterns of their width, durations the 64-bit patterns of
-- nanoseconds. `join_host_port` stands for net.JoinHostPort after strconv.Itoa.
pub mod Fields
pub mod Header
pub mod Body
pub mod Layout
pub mod Endpoint
pub mod RoundTrip
