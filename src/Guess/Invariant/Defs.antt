-- ===== src/Guess/Invariant/Defs.antt =====
-- The invariant of one pair of threads: server thread `id` and client thread `id`.
use cs.Prelude.{ℕ, ◌+◌, ◌≤◌, ◌<◌, ◌≡◌, ◌≢◌, true, false}
use cs.Guess.Range.{low, high}
use cs.Guess.Memory.{Shared}
use cs.Guess.Server.{Server, checking, comparing}
use cs.Guess.Client.{Client, filling, sweeping}

-- Who may act: exactly one of the client, the two semaphores and the server has the turn.
abbrev pub client_turn : Client → ℕ
client_turn Client.waiting = 0
client_turn _ = 1

abbrev pub server_turn : Server → ℕ
server_turn (comparing _) = 1
server_turn Server.posting = 1
server_turn _ = 0

-- Up to `hi` every answer is yes, and some answer is no.
abbrev pub Judged : (lo hi : ℕ) → (ℕ → ℕ) → Type 0
Judged lo hi shm2 = (j : ℕ) → lo ≤ j → j < hi → shm2 j ≢ 0

abbrev pub Wrong : (lo hi : ℕ) → (ℕ → ℕ) → Type 0
Wrong lo hi shm2 = (j : ℕ) × (lo ≤ j) × (j < hi) × (shm2 j ≡ 0)

-- What the place of a thread says about the answers in its part.
abbrev pub ServerFact : (lo hi : ℕ) → (ℕ → ℕ) → Server → Type 0
ServerFact lo hi shm2 (checking i) = (lo ≤ i) × (i ≤ hi) × Judged lo i shm2
ServerFact lo hi shm2 Server.waiting = Wrong lo hi shm2
ServerFact lo hi shm2 (comparing i) = lo ≤ i
ServerFact lo hi shm2 Server.exited = Judged lo hi shm2
ServerFact lo hi shm2 _ = Unit

abbrev pub ClientFact : (lo hi : ℕ) → (ℕ → ℕ) → Client → Type 0
ClientFact lo hi shm2 Client.start = (j : ℕ) → lo ≤ j → j < hi → shm2 j ≡ 0
ClientFact lo hi shm2 (filling i) = (lo ≤ i) × ((j : ℕ) → lo ≤ j → j < hi → shm2 j ≡ 0)
ClientFact lo hi shm2 Client.posting = Wrong lo hi shm2
ClientFact lo hi shm2 (sweeping k true) = (lo ≤ k) × Wrong lo hi shm2
ClientFact lo hi shm2 (sweeping k false) = (lo ≤ k) × (k ≤ hi) × Judged lo k shm2
ClientFact lo hi shm2 Client.exited = Judged lo hi shm2
ClientFact lo hi shm2 _ = Unit

pub record PairInv (n m : ℕ) (secret : ℕ → ℕ) (id : ℕ) (mem : Shared) (s : Server) (c : Client)
    : Type 0 where
  pub turn : client_turn c + mem.sem id + server_turn s + mem.sem (id + m) ≡ 1
  pub server_fact : ServerFact (low n m id) (high n m id) mem.shm2 s
  pub client_fact : ClientFact (low n m id) (high n m id) mem.shm2 c
  pub asked : mem.sem id ≡ 1 → Wrong (low n m id) (high n m id) mem.shm2
  pub sound : (j : ℕ) → low n m id ≤ j → j < high n m id → mem.shm2 j ≢ 0 → mem.shm1 j ≡ secret j
