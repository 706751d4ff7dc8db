-- ===== src/Guess/Invariant.antt =====
-- What holds of every pair of threads in every reachable state of the game.
pub mod Defs
mod Serve
mod Guesses
pub mod Frame
pub mod Reachable
