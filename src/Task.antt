-- ===== src/Task.antt =====
-- console/internal/grpcserver/task.go: the tasks of the console, and the table that holds them.
pub mod Defs
pub mod Transitions
pub mod Finish
pub mod Submit
pub mod Execute
pub mod Settled
pub mod Steps
pub mod Owners
pub mod Reservations
mod Examples
