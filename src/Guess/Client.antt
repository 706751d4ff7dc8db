-- ===== src/Guess/Client.antt =====
-- A client thread (`threadManipul` of Assignment2/client.c), an access to one cell of shared
-- memory at a time.
use cs.Prelude.{ℕ, ◌+◌, ◌%◌, Bool, true, false, Option, none, some, ◌==◌, ltb, if◌then◌else◌}
use cs.Guess.Range.{low, high}
use cs.Guess.Memory.{Shared, update, sem_post, sem_take}

-- Where a client thread stands.
pub data Client : Type 0 where
  start : Client  -- before the block under the mutex
  filling : (i : ℕ) → Client  -- in the loop that writes 'A'
  posting : Client  -- at `sem_post`
  waiting : Client  -- at `sem_wait`
  sweeping : (k : ℕ) (flag : Bool) → Client  -- in the loop over the answers
  exited : Client

module _ (n m id : ℕ) where
  -- `tid.shm1[k]++`, on a byte.
  abbrev pub bump : ℕ → Shared → Shared
  bump k s = record s { shm1 = update s.shm1 k ((s.shm1 k + 1) % 256) }

  unfoldable pub client_step : Client → Shared → Option (Shared × Client)
  client_step Client.start s =
      if s.client_no == id
      then some (record s { client_no = s.client_no + 1 }, filling (low n m id))
      else none
  client_step (filling i) s =
      if ltb i (high n m id)
      then some (record s { shm1 = update s.shm1 i b'A' }, filling (i + 1))
      else some (s, posting)
  client_step posting s = some (sem_post id s, waiting)
  client_step waiting s =
      if s.sem (id + m) == 0 then none else some (sem_take (id + m) s, sweeping (low n m id) false)
  client_step (sweeping k flag) s =
      if ltb k (high n m id)
      then if s.shm2 k == 0
        then some (bump k s, sweeping (k + 1) true)
        else some (s, sweeping (k + 1) flag)
      else if flag
      then some (s, posting)
      else some (s, exited)
  client_step exited s = none
