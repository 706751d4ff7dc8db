-- ===== src/Kernel.antt =====
-- The two system calls of Assignment3 and the kernel state that they read and write.
pub mod Task
pub mod SetLimit
pub mod GetLimit
pub mod RoundTrip
pub mod Calls
pub mod Lifetime
pub mod Numbers
pub mod Table
pub mod Syscalls
pub mod Programs
mod Tests
