-- ===== src/Auth.antt =====
-- The authentication pair of Authentication/: the wire protocol, the backend and the frontend.
pub mod Protocol
pub mod Compare
pub mod Request
pub mod Transfer
pub mod Session
pub mod Privileges
pub mod Server
pub mod Main
pub mod Helpers
pub mod Frontend
pub mod Together
pub mod Account
