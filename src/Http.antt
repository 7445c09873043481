-- ===== src/Http.antt =====
-- The HTTP server: the routes of http/http_router.hpp, `split` of http/http_utils.hpp, and
-- `html_codec` of http/http_codec.hpp.
pub mod Trie
pub mod Router
pub mod Utils
pub mod Codec
