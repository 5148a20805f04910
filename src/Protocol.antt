-- ===== src/Protocol.antt =====
-- src/protocol/message.cpp and include/cpp_chat/protocol/message.h: JSON text, client commands and
-- server replies.
pub mod Result
pub mod Message
pub mod Json
pub mod Format
pub mod Command
