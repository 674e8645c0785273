-- ===== src/Proxy.antt =====
-- The routes of the proxy: their tokens, and the workers that take them.
pub mod Token
pub mod Signed
pub mod Verified
pub mod Endpoint
pub mod Access
pub mod Granted
mod Examples
mod OpenedExample
