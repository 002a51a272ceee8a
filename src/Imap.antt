-- ===== src/Imap.antt =====
-- The IMAP vocabulary of the `imap-types` and `imap-next` crates, as far as the client names it.
-- What the client only carries is a type of the parameter `ImapTypes`. What it takes apart or
-- builds is a data type with the constructors that it names; where the crate has more of them,
-- the others are one constructor `other` over the abstract type `Other`.
-- `u32`, `NonZeroU32` and `NonZeroU64` are numbers that the client stores and never computes
-- with. `Vec1` is a list, and `Secret` is transparent.
mod Commands
mod Responses
mod Events
pub mod Types
pub use Types.{ImapTypes}
pub use Commands.*
pub use Responses.*
pub use Events.*
