-- ===== src/Next/PostDetails.antt =====
-- post-details.js: the table of contents and the sidebar of a post.
pub mod Toc
pub mod Panels
pub mod Opening
