-- ===== src/Time.antt =====
-- The second half of http/example/file_server/www/js/face.js: the formatting of times.
pub mod Defs
pub mod Format
pub mod Human
pub mod Exports
