-- ===== src/Federation.antt =====
-- The package federation: node identifiers, ranges of them, the partners of a site node.
pub mod NodeId
pub mod NodeIdGenerator
pub mod NodeIdRange
pub mod Partners
pub mod Sender
pub mod Ring
pub mod Discover
mod Tests
