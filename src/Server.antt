-- ===== src/Server.antt =====
-- subfile-service/src/subfile_server: the server's state and its requests.
pub mod State
pub mod Util
pub mod Invariant
pub mod Range
pub mod Routes
pub mod Admin
pub mod Requests
