-- ===== src/Screen.antt =====
-- server/screen.c: the viewer pfstop.
pub mod Keys
pub mod Scroll
pub mod Table
pub mod Session
pub mod Draw
pub mod Refresh
