-- ===== src/Model.antt =====
-- model/: the classes that stand for rows, and the four model classes that send SQL.
pub mod Types
pub mod Statements
pub mod Rows
pub mod Runs
pub mod UserModel
pub mod FriendModel
pub mod GroupModel
pub mod OfflineMsgModel
pub mod Keeps
pub mod Framed
