-- ===== src/Service.antt =====
-- chatservice.cpp, chatserver.cpp and MsgType.h: the handlers of the chat service, each an action on
-- the world in one piece, and in Threads a thread with its locks.
pub mod Messages
pub mod Responses
pub mod Access
pub mod Sessions
pub mod Chats
pub mod Relations
pub mod Dispatch
pub mod Delivery
pub mod Keeps
pub mod Registry
pub mod Credentials
pub mod Startup
pub mod Races
pub mod Closing
pub mod Threads
