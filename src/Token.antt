-- ===== src/Token.antt =====
-- Discovery, the authorization request and the ID token (src/token.rs).
pub mod Value
pub mod Claims
pub mod Discover
pub mod IdToken
pub mod Endpoint
pub mod Authorize
