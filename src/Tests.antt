-- ===== src/Tests.antt =====
-- The theorems at concrete inputs, a module for each part of the program.
mod Pages
mod Rooms
mod Texts
mod Blog
mod Posts
mod Loops
mod Routes
mod Wire
mod Datagrams
