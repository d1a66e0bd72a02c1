-- ===== src/Chat.antt =====
-- text_chat: the messages of the chat, the server's room and sessions, and the client.
pub mod Message
pub mod Room
pub mod Client
mod Tests
