-- ===== src/Chat.antt =====
-- chat/server.c: the chat server.
pub mod Input
pub mod Files
pub mod Users
pub mod Send
pub mod State
pub mod Messages
pub mod Pages
pub mod Commands
pub mod Admin
pub mod Events
pub mod Gone
pub mod Hall
mod Tests
