-- ===== src/Face.antt =====
-- http/example/file_server/www/js/face.js: the face panel and the replacement of face tokens.
pub mod Defs
pub mod Table
pub mod Messages
pub mod Panel
