-- ===== src/Backend.antt =====
-- src/lib/andromeda/backend: the requests to the server that send and read the bytes of files.
pub mod Uploads
pub mod Streams
pub mod Requests
pub mod Rounds
pub mod Sending
pub mod Defects
pub mod HttpRunner
pub mod Attempts
pub mod Retries
pub mod Downloads
pub mod Fetches
mod Tests
