-- ===== src/Next.antt =====
-- The scripts of the blog's theme, http/example/blog_server/web/js/src.
pub mod Page
pub mod Device
pub mod Selector
pub mod Geometry
pub mod Debounce
pub mod SidebarRoom
pub mod ScrollCookie
pub mod PostDetails
pub mod Motion
pub mod Bootstrap
pub mod Pisces
pub mod Video
pub mod Menu
pub mod Popup
pub mod Images
pub mod Algolia
pub mod Base64
pub mod Tabs
