-- ===== src/Examples.antt =====
-- The theorems applied to concrete logins, pages and requests.
pub mod World
pub mod Requests
pub mod Pages
pub mod Logins
pub mod Settings
pub mod IdTokens
pub mod Json
pub mod Clients
pub mod Tools
pub mod Transfers
pub mod Commands
