-- ===== src/Tokio.antt =====
-- src/client/tokio.rs: the client on a connection.
pub mod Api
pub mod Connection
pub mod Commands
pub mod Messages
pub mod Login
pub mod Fetch
pub mod Fallback
pub mod SortFallback
pub mod Idle
pub mod Connect
pub mod Idling
pub mod Calls
pub mod Closed
pub mod Needs
pub mod Parts
pub mod Methods
pub mod Guarantees
pub mod Returns
pub mod MovePlan
pub mod Sending
pub mod Advertised
pub mod Saving
pub mod ByUid
pub mod ServerOrder
pub mod AppendedUid
pub mod SortItems
pub mod SortBatches
pub mod SortOrder
pub mod Pinned
pub mod Delivery
pub mod Answers
pub mod Exchanges
pub mod TlsStream
