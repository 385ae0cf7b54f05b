-- ===== src/Tests.antt =====
-- Concrete runs of the components.
mod Fixtures
mod Chat
mod Buffers
mod Connections
mod Workers
mod Codec
mod Dialogue
mod Logins
mod Threads
mod Loops
