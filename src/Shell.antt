-- ===== src/Shell.antt =====
-- The shell of Assignment1 (Assignment1/mysh.c).
pub mod Text
pub mod Parse
pub mod Cells
pub mod Search
pub mod Redirect
pub mod Pipe
pub mod History
pub mod Spawn
pub mod Child
pub mod Round
pub mod Arguments
pub mod Handlers
pub mod ShowHistory
pub mod Times
pub mod Typed
mod Tests
