-- ===== src/Chat.antt =====
-- The chat pages of the file server: http/example/file_server/www/js/im.js and chatRoom.js.
pub mod Defs
pub mod Trim
pub mod Replies
pub mod Store
pub mod Window
pub mod Im
pub mod Room
