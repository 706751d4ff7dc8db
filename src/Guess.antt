-- ===== src/Guess.antt =====
-- The guessing game of Assignment2: the server's threads judge the client's guesses, the
-- client's threads make them, over shared memory and two semaphores for each pair of threads.
pub mod Range
pub mod Memory
pub mod Server
pub mod Client
pub mod System
pub mod Invariant
pub mod Exact
pub mod Ends
pub mod Safety
pub mod Progress
pub mod Uncovered
pub mod Setup
pub mod Won
mod Tests
