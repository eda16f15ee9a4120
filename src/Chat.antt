-- ===== src/Chat.antt =====
-- MyChat/MyChatMessage.hpp, MyTCPChatSrv01.cpp and MyTCPChatCli01.cpp: the chat protocol's message,
-- the server with its room and sessions, and the client.
pub mod Message
pub mod Header
pub mod Outbox
pub mod Room
pub mod Members
pub mod History
pub mod Stream
pub mod Reach
pub mod Client
pub mod Posted
mod Tests
