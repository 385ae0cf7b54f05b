-- ===== src/Net.antt =====
-- webserver/: the reactor library under the chat server.
pub mod Buffer
pub mod Channel
pub mod Connection
pub mod Poller
pub mod LoopPool
pub mod LoopThread
pub mod EventLoop
pub mod Address
pub mod Server
