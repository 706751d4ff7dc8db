-- ===== src/Guess/System.antt =====
-- The two processes together, their threads interleaved in any order.
use cs.Prelude.{ℕ, ◌*◌, ◌<◌, ◌≡◌, some, ◌==◌, if◌then◌else◌}
use cs.Guess.Memory.{Shared}
use cs.Guess.Server.{Server, server_step}
use cs.Guess.Client.{Client, client_step}

pub record System : Type 0 where
  pub mem : Shared
  pub server : ℕ → Server
  pub client : ℕ → Client

abbrev pub put {ℓ} : {A : Type ℓ} → (ℕ → A) → ℕ → A → ℕ → A
put f i a j = if i == j then a else f j

-- The shared memory before any thread has run: within the bounds of the segments `shm1` holds '0',
-- and `shm2` and the semaphores 0, and `thread_no` is 0 in both processes.
pub record IsFresh (n m : ℕ) (mem : Shared) : Type 0 where
  pub guesses : (j : ℕ) → j < n → mem.shm1 j ≡ b'0'
  pub answers : (j : ℕ) → j < n → mem.shm2 j ≡ 0
  pub semaphores : (j : ℕ) → j < 2 * m → mem.sem j ≡ 0
  pub server_no : mem.server_no ≡ 0
  pub client_no : mem.client_no ≡ 0

-- The state in which the threads of both processes are created.
abbrev pub launch : Shared → System
launch mem = record { mem = mem; server = λ _. Server.start; client = λ _. Client.start }

-- One of the `m` server threads or of the `m` client threads makes a step.
pub data Step (n m : ℕ) (secret : ℕ → ℕ) (s : System) : System → Type 0 where
  serve :
      (id : ℕ) {mem : Shared} {pc : Server}
      → id < m
      → server_step n m secret id (s.server id) s.mem ≡ some (mem, pc)
      → Step n m secret s (record { mem = mem; server = put s.server id pc; client = s.client })
  guess :
      (id : ℕ) {mem : Shared} {pc : Client}
      → id < m
      → client_step n m id (s.client id) s.mem ≡ some (mem, pc)
      → Step n m secret s (record { mem = mem; server = s.server; client = put s.client id pc })

-- The states that a game over the memory `start` can reach.
pub data Reach (n m : ℕ) (secret : ℕ → ℕ) (start : Shared) : System → Type 0 where
  begin : IsFresh n m start → Reach n m secret start (launch start)
  later : {s t : System} → Reach n m secret start s → Step n m secret s t → Reach n m secret start t
