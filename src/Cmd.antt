-- ===== src/Cmd.antt =====
-- The commands, go-ooo/cmd: the ones that make and start a node, and the ones that talk to it.
pub mod Init
pub mod Start
pub mod Numbers
pub mod Admin
pub mod Remote
pub mod Analytics
pub mod Suggestion
pub mod Tests
