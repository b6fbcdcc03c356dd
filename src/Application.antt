-- ===== src/Application.antt =====
-- application.go without dis: the start, the timer that forgets clients, the shutdown and the pages.
pub mod Start
pub mod Answers
pub mod Wire
pub mod Purge
pub mod Shutdown
pub mod Pages
