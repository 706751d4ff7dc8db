-- ===== src/Guess/Exact.antt =====
-- The answers of the server are exact when the client reads them, and no guess passes its letter
-- (Assignment2/server.c and Assignment2/client.c).
pub mod Serve
pub mod Guesses
pub mod Reachable
use cs.Prelude.{ℕ, ◌+◌, ◌≤◌, ◌<◌, ◌≡◌, ◌≢◌}
use cs.Guess.Range.{low, high}
use cs.Guess.Memory.{Shared}
use cs.Guess.Server.{Server, comparing}
use cs.Guess.Client.{Client, sweeping}

-- From `lo` to `hi` a letter that is answered by no is wrong.
abbrev pub Exact : (secret : ℕ → ℕ) (lo hi : ℕ) (shm1 shm2 : ℕ → ℕ) → Type 0
Exact secret lo hi shm1 shm2 = (j : ℕ) → lo ≤ j → j < hi → shm2 j ≡ 0 → shm1 j ≢ secret j

abbrev pub ServerExact : (secret : ℕ → ℕ) (lo hi : ℕ) (shm1 shm2 : ℕ → ℕ) → Server → Type 0
ServerExact secret lo hi shm1 shm2 (comparing i) = (i ≤ hi) × Exact secret lo i shm1 shm2
ServerExact secret lo hi shm1 shm2 Server.posting = Exact secret lo hi shm1 shm2
ServerExact secret lo hi shm1 shm2 _ = Unit

abbrev pub ClientExact : (secret : ℕ → ℕ) (lo hi : ℕ) (shm1 shm2 : ℕ → ℕ) → Client → Type 0
ClientExact secret lo hi shm1 shm2 (sweeping k flag) = (lo ≤ k) × Exact secret k hi shm1 shm2
ClientExact secret lo hi shm1 shm2 _ = Unit

pub record PairExact (n m : ℕ) (secret : ℕ → ℕ) (id : ℕ) (mem : Shared) (s : Server) (c : Client)
    : Type 0 where
  pub bounded : (j : ℕ) → low n m id ≤ j → j < high n m id → mem.shm1 j ≤ secret j
  pub compared : ServerExact secret (low n m id) (high n m id) mem.shm1 mem.shm2 s
  pub answered : mem.sem (id + m) ≡ 1 → Exact secret (low n m id) (high n m id) mem.shm1 mem.shm2
  pub swept : ClientExact secret (low n m id) (high n m id) mem.shm1 mem.shm2 c

-- Letters that the client can reach: from 'A' on, and within a byte.
abbrev pub AreLetters : ℕ → (ℕ → ℕ) → Type 0
AreLetters n secret = (j : ℕ) → j < n → (b'A' ≤ secret j) × (secret j < 256)
