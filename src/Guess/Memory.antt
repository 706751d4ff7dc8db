-- ===== src/Guess/Memory.antt =====
-- The shared state of the game: the three segments of shared memory and the two counters
-- `thread_no` (Assignment2/server.c, Assignment2/client.c).
use cs.Prelude.{ℕ, ◌+◌, ◌-◌, ◌==◌, if◌then◌else◌}

-- One cell written.
abbrev pub update : (ℕ → ℕ) → ℕ → ℕ → ℕ → ℕ
update f i v j = if i == j then v else f j

-- `shm1` holds the client's guesses, `shm2` the server's answers, `sem` the values of the
-- semaphores: thread `i` waits on `sem i` in the server and on `sem (i + m)` in the client.
pub record Shared : Type 0 where
  pub shm1 : ℕ → ℕ
  pub shm2 : ℕ → ℕ
  pub sem : ℕ → ℕ
  pub server_no : ℕ
  pub client_no : ℕ

-- `sem_post`, and the decrement of a `sem_wait` that does not block.
abbrev pub sem_post : ℕ → Shared → Shared
sem_post i s = record s { sem = update s.sem i (s.sem i + 1) }

abbrev pub sem_take : ℕ → Shared → Shared
sem_take i s = record s { sem = update s.sem i (s.sem i - 1) }
