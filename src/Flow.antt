-- ===== src/Flow.antt =====
-- flow/: the runtime of a flow, a module for each part.
pub mod Blueprint
pub mod Runner
pub mod Controller
pub mod Awaitable
pub mod FastAwaitable
pub mod WhenAll
pub mod WhenAny
