-- ===== src/Shell.antt =====
-- labs/07-shell/tsh.c: the job list of the shell and the handlers that change it.
pub mod Jobs
pub mod Control
pub mod Reaping
pub mod Continuing
pub mod Histories
pub mod Lines
pub mod Eval
mod Tests
