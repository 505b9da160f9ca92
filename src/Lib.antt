-- ===== src/Lib.antt =====
-- Phabrik: a Service Fabric client, transport server and federation node in Go.
--
-- The program's parts. The package serialization encodes Go values in Fabric's format by reflection.
-- The package transport puts messages, which are headers and a body in that format, into frames with
-- checksums, and matches replies with requests. The package federation keeps what a site node knows
-- of its partners from the headers of the messages that it gets, chooses where to send, and sends
-- over a pool of transport connections. The package lease exchanges pings in frames and messages of
-- its own layout. The package naming asks the naming gateway over a transport connection. The
-- package common has shared types.
--
-- The files, and the code that they model:
--
-- Base (Tests, Lists, Results, Bytes): shared names, lists measured by native numbers, the result of
--   code that returns an error or panics, little-endian bytes.
-- Common: common/time.go (TimeSpanFromDuration, ToDuration) and common/uri.go.
-- Serialization: State, the states of encoder and decoder; TypeMeta, fabricserializationtype.go;
--   Compress, bytecompress.go; Guid, guid.go; Utf16, the strings; GoType, a universe of the Go types
--   that reflection meets, with their values; Marshal, marshal.go (encodeState.value and what it
--   calls are `encode` and the functions before it); Unmarshal, unmarshal.go (decodeState.value is
--   `decode`); RoundTrip, the proof that the decoder undoes the encoder, by kinds of values.
-- Transport: Frame, transport/frame.go; Headers (Write, Read), transport/messageheaders.go with the
--   identifiers of transport/messageheaderid.go; Message, transport/message.go; RequestTable,
--   transport/requesttable.go, with RequestTable/Spec, what a table promises its callers, and
--   RequestTable/Exchange, the goroutines of Wait and Feed as a step relation; Conn,
--   transport/conn.go; Tls, transport/tls.go; Piper, the loop copy of transport/piper.go.
-- Federation: NodeId, federation/nodeid.go; NodeIdGenerator, federation/nodeid_generator.go, with
--   NodeID.String in NodeIdGenerator/Hex; NodeIdRange, federation/nodeid_range.go; Partners,
--   federation/sitenode.go and federation/sitenode_parteners.go; Sender, appendPartnerInfo of
--   federation/sitenode_sender.go; Ring, the rest of that file, votePing and onMessage
--   of federation/sitenode.go; Discover, federation/sitenode_boot.go.
-- Lease: Frame, lease/frame.go; Session and Agent, lease/agent.go; Serialize (Fields, Header, Body),
--   lease/serialize.go and the Message of lease/message.go; Wire, what Ping writes and the loop of
--   handleIncoming of lease/agent.go.
-- Naming: Types and the module itself, naming/naming.go.
-- Modules called Tests have runs at concrete inputs.
--
-- State. A writer is the bytes that it has written, a reader the bytes that are still to come, or a
-- buffer and a position where the code seeks. Integers are native numbers, signed ones their 64-bit
-- patterns, with the wrap-around written out. A map is an association list; where Go's order of
-- iteration shows, it is that of the list, so that a theorem for all lists covers every order. A
-- panic is a result. Channels and connections are numbers, a shared session is a pointer into a heap.
--
-- Fuel. The loop that parses headers has fuel above the length of its input, each round taking four
-- bytes or more, and the recursion of nextLtFrame too, each round taking twelve, so that neither runs
-- out. The rounds of Discover are as many as the caller gives; two more than may find nothing are
-- enough once nothing new is known. The loops of the piper and of handleIncoming end only with an
-- error and take one of fuel a message, and one for the end. Everything else is structural recursion.
--
-- Parameters. The checksums of github.com/sigurn/crc8 and hash/crc32 are functions; what is asked of
-- them is only that their values fit their fields. The random bytes of a GUID, the clock, the
-- answers of dialers, how the network takes a write, and what the gateway replies are arguments.
-- MD5, net.JoinHostPort, and the headers and bodies that hold node identifiers are functions.
--
-- Not modelled: sockets, goroutines, locks and timeouts, so transport/client.go,
-- transport/server.go, and handle, Serve and pipe of transport/piper.go, which connect these; the
-- handshake of crypto/tls; the wait of RequestReply, Route and Ping for the reply; Bootstrap
-- and Join (federation/sitenode_boot.go, federation/sitenode_join.go); PingLoop and the
-- accepting of lease/agent.go; printing and parsing of GUIDs; the types of notifications of
-- naming/naming.go; the examples and generated code.
mod Base
pub mod Common
pub mod Serialization
pub mod Transport
pub mod Federation
pub mod Lease
pub mod Naming
