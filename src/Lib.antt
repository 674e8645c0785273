-- ===== src/Lib.antt =====
-- Onlyboxes runs code for accounts in sandboxes. A console (console/) takes requests by HTTP, keeps
-- tasks, and hands commands over gRPC to workers (worker/), which run them in containers.
--
-- The library models the parts that hold state under concurrency, and the ones that keep accounts
-- apart:
--
-- - Terminal: worker/worker-docker/internal/runner/terminal_exec.go and session_recovery.go. The
--   manager of terminal sessions, one container each. `Manager` is terminalSessionManager, and a
--   pointer to a terminalSession is an index into `heap`. Each critical section of the source under
--   `m.mu` is one function: claim_session, release_session, release_and_destroy_session,
--   renew_lease, expire_session_lease, cleanup_expired_sessions, recover_existing, recover_locked
--   and the halves of Close and cleanupInactiveCreatedSession. `Step` runs them in any order;
--   `execute` is Execute, with the other goroutines' work between its sections as a parameter.
-- - Session: console/internal/grpcserver/session_runtime.go. `ActiveSession` is activeSession: the
--   slots of each capability, the pending commands and the channels for their results. `Step` runs
--   the sections in any order, with the slots that goroutines hold as a ghost count.
-- - OwnerScope: console/internal/grpcserver/task_owner_scope.go. The ids of terminal sessions carry
--   their owner to the worker and lose it on the way back.
-- - Routes: console/internal/grpcserver/terminal_session_routes.go, with the rows of
--   console/db/queries/terminal_session_routes.sql. `Routes` is the part of RegistryService under
--   `terminalRoutesMu`: the table of routes, its index by worker, the counter of reservations. Each
--   operation is one function; `Step` runs them in any order. `Board` (Routes/Spec) is what a
--   dispatch sees of them.
-- - Dispatch: console/internal/grpcserver/service_dispatch.go and terminal_session_lease.go. The choice
--   of a worker for a command, the reservation of its terminal session's route, one attempt, the loop
--   over attempts, and the renewal of a lease as a command. It is composed of the operations of Session
--   and Routes. `pause` stands between the calls of a dispatch that take a lock, and other goroutines then
--   do whatever the parameter `gap` says; whether a worker is ready and has the capability is one look
--   at it.
-- - Proxy: api/proxytoken/token.go and console/internal/grpcserver/proxy_routes.go. The tokens that the
--   console signs for a route of the proxy and that a worker verifies; what a worker may advertise as
--   its proxy, and the way from a session to its worker and the token, over Routes and Dispatch.
-- - Target: console/internal/grpcserver/task_worker_sys_routing.go. The tasks whose input names the
--   worker on a host (worker/worker-sys) that they go to.
-- - Task: console/internal/grpcserver/task.go, with console/db/queries/tasks.sql, maintenance.sql and
--   the keys of the table in console/db/migrations. The store of tasks as a list of rows, the transitions of a task, GetTask, CancelTask and the checks of SubmitTask.
-- - Prelude: lists over the native numbers, text as code points, association lists and their laws.
--
-- They meet where a task is submitted: Task checks the request, Target finds the worker it names,
-- OwnerScope rewrites its input, Dispatch picks a worker and reserves the route, Session carries the
-- command and its result, and Terminal runs it on the worker. Dispatch and Proxy are composed of the
-- operations of Session and Routes; between Task, OwnerScope, Target and Dispatch the results are
-- parameters.
--
-- Times are natural numbers of milliseconds. `int` and `int32` values of a configuration are
-- unbounded integers; the counters are natural numbers, which the guards of the source keep above
-- zero. No definition needs fuel: every loop runs over a list or counts down the attempts that the
-- source allows. Map iteration follows the order of an association list. strings.ToLower is modelled
-- on ASCII, in which capability and header names are. A string is a list of code points, so that a Go
-- string that is not valid UTF-8 has no counterpart; Proxy counts its bytes by `utf8`.
--
-- Parameters stand for code outside the repository: SHA-256, HMAC, base64, the packages net, net/netip
-- and net/url, encoding/json, UUIDs, and what Docker and the context answer. The answers of the store
-- of workers (console/internal/registry) are parameters too.
--
-- Not modelled: the store of workers itself, the docker command lines, gRPC and HTTP transport, SQL
-- beyond the queries of tasks and of routes, configuration, the other workers and the web console.
pub mod Prelude
pub mod Terminal
pub mod Session
pub mod OwnerScope
pub mod Routes
pub mod Dispatch
pub mod Proxy
pub mod Target
pub mod Task
