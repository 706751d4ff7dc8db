-- ===== src/Guess/Server.antt =====
-- A server thread (`threadManipul`, `found` and `compare_with_string` of Assignment2/server.c),
-- an access to one cell of shared memory at a time.
use cs.Prelude.{ℕ, ◌+◌, Option, none, some, ◌==◌, ltb, if◌then◌else◌}
use cs.Guess.Range.{low, high}
use cs.Guess.Memory.{Shared, update, sem_post, sem_take}

-- Where a server thread stands.
pub data Server : Type 0 where
  start : Server  -- before the block under the mutex
  checking : (i : ℕ) → Server  -- in `found`, before it reads `shm2[i]`
  waiting : Server  -- at `sem_wait`
  comparing : (i : ℕ) → Server  -- in `compare_with_string`, at `i`
  posting : Server  -- at `sem_post`
  exited : Server

module _ (n m : ℕ) (secret : ℕ → ℕ) (id : ℕ) where
  -- The next step of the thread with number `id`; `none` if it is blocked or has ended. Threads
  -- are named by the number that they draw under the mutex, so the one that draws is `thread_no`.
  unfoldable pub server_step : Server → Shared → Option (Shared × Server)
  server_step Server.start s =
      if s.server_no == id
      then some (record s { server_no = s.server_no + 1 }, checking (low n m id))
      else none
  server_step (checking i) s =
      if ltb i (high n m id)
      then if s.shm2 i == 0 then some (s, waiting) else some (s, checking (i + 1))
      else some (s, exited)
  server_step waiting s =
      if s.sem id == 0 then none else some (sem_take id s, comparing (low n m id))
  server_step (comparing i) s =
      if ltb i (high n m id)
      then some (
        record s { shm2 = update s.shm2 i (if s.shm1 i == secret i then 1 else 0) },
        comparing (i + 1),
      )
      else some (s, posting)
  server_step posting s = some (sem_post (id + m) s, checking (low n m id))
  server_step exited s = none
