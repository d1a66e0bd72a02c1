-- ===== src/Practice.antt =====
-- The SIP practice lab, basic/.
pub mod RequestLine
pub mod Message
pub mod Headers
pub mod Transaction
pub mod Catalog
pub mod Words
pub mod Runner
pub mod Capture
pub mod TestRunner
mod Tests
pub mod Repository
pub mod WebServer
pub mod Trim
