-- ===== src/Scheduler.antt =====
-- `Scheduler` of src/tasks/mod.rs, in parts: `TaskMap` has the queues of tasks, `Trickle` the walk of
-- a response along the active tasks, `State` the data types, and `Progress` the operations. The
-- other modules prove.
pub mod ClientNext
pub mod TaskMap
pub mod Trickle
pub mod State
pub mod Progress
pub mod Routing
pub mod Conservation
pub mod Lifetime
pub mod Typing
pub mod Safety
pub mod Termination
