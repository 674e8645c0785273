-- ===== src/OwnerScope.antt =====
-- console/internal/grpcserver/task_owner_scope.go: the ids of terminal sessions carry their owner.
pub mod Ids
pub mod Isolation
pub mod Payloads
pub mod Marks
mod Examples
