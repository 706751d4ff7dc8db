-- ===== src/Guess/Setup/Server.antt =====
-- The server around its threads (`main` of Assignment2/server.c).
use cs.Prelude.{
  ℕ, zero, suc, ◌+◌, ◌*◌, Bool, true, ◌&&◌, not, Option, none, some, List, [], ◌∷◌, if◌then◌else◌,
}
use cs.Prelude.Int.{ℤ, pos, ltb_ℤ, ◌==ℤ◌}
use cs.Prelude.Text.{codes}
use cs.Guess.Setup.{Result, ok, stopped, ◌>>=◌, ◌>>◌, must, Os}
use cs.Guess.Setup.Segments.{
  Filled, fill_loop, create_string, create_first, create_second, create_third,
}

-- Whether the calls of `main` succeed. `received` is the number of threads that `recv` stores.
pub record Calls : Type 0 where
  pub socket_ok : Bool
  pub bind_ok : Bool
  pub listen_ok : Bool
  pub accept_ok : Bool
  pub received : Option ℕ
  pub semid_ok : Bool
  pub send_n_ok : Bool
  pub send_keys_ok : Bool
  pub threads_ok : Bool
  pub created : ℕ → Bool
  pub detached : ℕ → Bool
  pub removed1 : Bool
  pub removed2 : Bool
  pub removed3 : Bool

-- From the argument to `listen`.
unfoldable pub start_server : Calls → ℤ → Result (Unit {0})
start_server c n =
    if not (ltb_ℤ (pos 0) n) then stopped 0 (codes "can't have negative or zero string") else (do
      must c.socket_ok (codes "socket")
      must c.bind_ok (codes "bind")
      must c.listen_ok (codes "listen"))

-- What the threads are given, and what the server keeps for the end of the round.
pub record Game : Type 0 where
  pub n : ℕ
  pub m : ℕ
  pub secret : ℕ → ℕ
  pub first : Filled
  pub second : Filled
  pub third : Filled

-- `M` keeps its value where `recv` fails.
unfoldable pub received_m : Option ℕ → ℕ → ℕ
received_m none m = m
received_m (some m') m = m'

unfoldable pub all_true : (rounds i : ℕ) → (ℕ → Bool) → Bool
all_true zero i p = true
all_true (suc rounds) i p = p i && all_true rounds (i + 1) p

-- The loop that creates the threads.
unfoldable pub create_threads : Calls → Game → Result Game
unfolding all_true
create_threads c g = do
  must c.send_keys_ok (codes "send")
  must c.threads_ok (codes "calloc")
  must (all_true g.m 0 c.created) (codes "pthread_create")
  ok g

-- Whether `shmget` has returned one segment twice, which `IPC_CREAT` without `IPC_EXCL` allows.
abbrev pub is_same : Filled → Filled → Bool
is_same a b = a.segment.id ==ℤ b.segment.id

-- What the first segment holds once the second one is filled: the loop of
-- `createSecondSharedMemory` writes `n` integers 0, of 4 bytes, over it where both are the same.
unfoldable pub under_second : ℕ → Filled → Filled → Filled
under_second n a b = record {
  segment = a.segment;
  cells = if is_same a b then fill_loop (n * 4) 0 0 a.cells else a.cells;
}

-- The three segments, each with keys from the draws behind those of the one before. The third one
-- is new: `shmget` is called with `IPC_EXCL`.
unfoldable pub create_game : ℕ → Os → (n m : ℕ) → (ℕ → ℕ) → (draw : ℕ) → Result Game
unfolding create_first create_second create_third under_second
create_game fuel os n m secret draw = do
  a ← create_first fuel os n draw
  b ← create_second fuel os n a.segment.draws
  c ← create_third fuel os m b.segment.draws
  ok (record { n = n; m = m; secret = secret; first = under_second n a b; second = b; third = c })

-- A round of the loop up to the creation of the threads; `junk` is what `calloc` returns, and
-- `draw` the number of the next `rand`.
unfoldable pub server_setup : ℕ → Os → Calls → (n m : ℕ) → (junk : ℕ → ℕ) → (draw : ℕ) → Result Game
unfolding create_string create_game create_threads received_m
server_setup fuel os c n m junk draw = do
  must c.accept_ok (codes "accept")
  must c.semid_ok (codes "calloc")
  must c.send_n_ok (codes "send")
  g ← create_game fuel os n (received_m c.received m) (create_string n draw os.rand junk) (draw + n)
  create_threads c g

-- The ids that `semctl` is given: what `sem_init` has returned.
unfoldable pub sem_removals : Os → (rounds i : ℕ) → List ℤ
sem_removals os zero i = []
sem_removals os (suc rounds) i = os.sem_init i ∷ sem_removals os rounds (i + 1)

-- The end of a round, behind the last `pthread_join`, with the calls of `semctl`.
unfoldable pub server_cleanup : Os → Calls → (m : ℕ) → Result (List ℤ)
unfolding all_true sem_removals
server_cleanup os c m = do
  must (all_true 3 0 c.detached) (codes "shmdt")
  must c.removed1 (codes "shmctl shmid1")
  must c.removed2 (codes "shmctl shmid2")
  must c.removed3 (codes "shmctl shmid3")
  ok (sem_removals os (2 * m) 0)
