-- ===== src/Lib.antt =====
-- imap-client, an IMAP client library: its tasks, the scheduler that runs them over one
-- connection, and what a client knows of its server.
--
-- The program. A task (`src/tasks/tasks/`) is one IMAP command: it builds the command, takes the
-- responses that belong to it out of the stream of the server, and makes an output of the tagged
-- status that completes the command. The scheduler (`src/tasks/mod.rs`) has a queue of tasks whose
-- command waits to be sent and one of tasks whose command was sent; `progress` takes the events of
-- `imap_next::client::Client` one by one, moves a task from waiting to active when its command is
-- sent, offers a response to the active tasks in their order, and returns a finished task as a
-- token. The resolver (`src/tasks/resolver.rs`) runs one task to its output on top of that. The
-- client (`src/client/mod.rs`) has a resolver and the saved capabilities of the server; the client of
-- `src/client/tokio.rs` has one with a connection, and its methods resolve one task each, or several
-- where the server lacks an extension.
--
-- The files.
--   Prelude     names of the libraries that all modules share, and models of what the program calls
--               of the Rust standard library: slices (Bytes), VecDeque (Deque), HashMap (HashMap),
--               Ordering (Compare)
--   Imap        the vocabulary of the crates imap-types and imap-next. They are not part of the
--               repository: their types that the program only carries are the parameter
--               `ImapTypes`; the enums that it matches on are data types
--   Task        the traits `Task` and `TaskAny`. Task/Feed has the words in which a task is
--               specified: what it does to a sequence of responses
--   Tasks       one module for each type that implements `Task`, under the name of the type without
--               `Task`, but CapabilityQuery for `CapabilityTask`, ListMailboxes for `ListTask`,
--               ServerId for `IdTask` and ThreadMessages for `ThreadTask`. A method has its name;
--               `task` is the `impl Task`. Tasks/Library is all of them as one registry
--   Scheduler   `TaskMap`, `trickle_down` (Trickle), the types (State) and the operations
--               (Progress) of the scheduler. ClientNext is the interface of
--               `imap_next::client::Client`, a parameter. A helper of Progress is a branch of
--               `match event`: `activate` when a command is sent, `finish` when it is rejected or
--               an authentication ends, `offer` for `trickle_down`, `complete` for a tagged status
--   Resolver    `Resolver` and `ResolvingTask`; `resolve_task` is `Resolver::resolve`
--   Client      `Client` of `src/client/mod.rs`. Client/FetchOrder is the order in which
--               `_sort_or_fallback` of `src/client/tokio.rs` sorts, with `cmp_fetch_items`,
--               and Client/FetchOrder/Before describes this order without its code;
--               Client/Verifier is `src/client/verifier.rs`, with SHA-256 as a parameter
--   Tokio       `src/client/tokio.rs`. Api is its state, its errors and how a method runs; Commands
--               and Messages are the low-level methods, Login the medium-level ones, Fetch, Fallback
--               and SortFallback the high-level ones with their fallbacks, Idle the IDLE loops, and
--               Connect the constructors, with TlsStream for the streams. Connection fills the
--               parameter of Api with Resolver and Stream. Calls has the methods as one type, and
--               Closed, Parts and Methods carry a property of their steps over to all of them; Needs
--               and Sending have the words for what a command needs of the server. Delivery, Answers
--               and Exchanges follow methods over a connection, from what Connection/Wire says of
--               the scheduler, Resolver/Session (Talk, Conversation) of the client of imap-next and
--               Stream/Dialogue of a socket. MovePlan, AppendedUid, SortOrder and ServerOrder are about the fallbacks
--   Stream      `Stream::next` of `src/stream.rs`, over a socket and a state that are parameters;
--               Rounds and Errors are about what ends it
--   Programs    `examples/append.rs` and `examples/condstore.rs`, on a client, with the lines they
--               print as data. Keeps has the words for a predicate on these lines
--   Examples    concrete parameters, and the theorems at concrete arguments
--
-- State and effects. A `&mut self` method returns the new state. Where the program may panic (an
-- `unwrap`, an `unreachable!`) the model has a value `panic`, `panics` or `none` of its own. A
-- `Box<dyn TaskAny>` is a value with the code of its type; `Box<dyn Any>` likewise, and `downcast`
-- compares the codes. The loops of `progress`, `ResolvingTask::next`, `Stream::next`, `idle` and
-- `idle_done` run on fuel; the fuel that suffices is stated with them: for `progress` more than
-- what the client has pending, where it is assumed (`Drains`) that without new input the client
-- yields finitely many events and malformed messages before it asks for input or output.
--
-- Assumed of the outside: the derived equalities of the carried types decide equality, and an
-- iteration over a HashMap visits each entry once, in an order that is a parameter.
--
-- A method of the client of `src/client/tokio.rs` is a function from the client to its result and
-- the client behind it, or to `none` where it panics or the connection never answers. How a
-- connection resolves a task is a field of the parameter `Environment`; TCP, TLS, STARTTLS and
-- files are fields of `Network`, and each call of them is a pure function.
--
-- Not modelled: logging; `poll_shutdown` of `MaybeTlsStream`, which nothing here calls; the bounds of
-- `u32` and `NonZeroU32`, since the modelled code stores these numbers and does not compute with
-- them; `examples/fetch.rs`, which imports a name and calls a constructor that the library does not
-- have; a session of one task beside other active tasks, from its command to its output.
pub mod Prelude
pub mod Imap
pub mod Task
pub mod Tasks
pub mod Scheduler
pub mod Resolver
pub mod Client
pub mod Stream
pub mod Tokio
pub mod Programs
pub mod Examples
