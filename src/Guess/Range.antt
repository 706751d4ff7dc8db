-- ===== src/Guess/Range.antt =====
-- The part of the string that a thread handles (`low` and `high` of `threadManipul` in
-- Assignment2/server.c and Assignment2/client.c).
use cs.Prelude.{ℕ, ◌+◌, ◌*◌, ◌/◌, ◌≤◌, ◌<◌, ◌≡◌, arith}

-- `n` is the length of the string, `m` the number of threads, `i` the number of the thread.
unfoldable pub low : (n m i : ℕ) → ℕ
low n m i = i * (n / m)

unfoldable pub high : (n m i : ℕ) → ℕ
high n m i = (i + 1) * (n / m)

pub low-le-high : (n m i : ℕ) → low n m i ≤ high n m i
unfolding low high
low-le-high n m i = omega arith

pub low-lt-high : (n m i : ℕ) → 0 < n / m → low n m i < high n m i
unfolding low high
low-lt-high n m i h = omega arith

-- The threads' parts do not overlap.
pub disjoint :
    (n m i j k : ℕ) → low n m i ≤ k → k < high n m i → low n m j ≤ k → k < high n m j → i ≡ j
unfolding low high
disjoint n m i j k a b c d = grind arith

-- A thread's part lies within the string.
pub high-le : (n m i : ℕ) → i < m → high n m i ≤ n
unfolding high
high-le n m i h = grind arith

-- The parts cover the first `m * (n / m)` letters.
pub covered : (n m j : ℕ) → j < m * (n / m) → (i : ℕ) × (i < m) × (low n m i ≤ j) × (j < high n m i)
unfolding low high
covered n m j h = (j / (n / m), grind arith, grind arith, grind arith)

-- No part reaches beyond them.
pub high-le_covered : (n m i : ℕ) → i < m → high n m i ≤ m * (n / m)
unfolding high
high-le_covered n m i h = grind arith
