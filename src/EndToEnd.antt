-- ===== src/EndToEnd.antt =====
-- A client and the server together: what the client sends through the server's handlers, and what
-- the server sends through the client's.
mod Texts
pub mod Chatting
pub mod LoggingIn
pub mod Entering
pub mod TwoServers
