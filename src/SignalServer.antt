-- ===== src/SignalServer.antt =====
-- signal_server: the HTTP server that the signalling page is served by.
pub mod RequestParser
pub mod Reply
pub mod MimeTypes
pub mod RequestHandler
pub mod Connection
pub mod Server
mod Tests
