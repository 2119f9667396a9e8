-- ===== src/Flow.antt =====
-- The native login flow (src/flow).
pub mod Types
pub mod Expect
pub mod Jar
pub mod Fetch
pub mod Classify
pub mod Form
pub mod Factor
pub mod State
pub mod Callback
pub mod Session
pub mod Driver
