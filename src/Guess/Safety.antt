-- ===== src/Guess/Safety.antt =====
-- What the game has guessed when a client's thread ends, and who may write when
-- (Assignment2/server.c, Assignment2/client.c).
use cs.Prelude.{ℕ, ◌+◌, ◌*◌, ◌/◌, ◌≤◌, ◌<◌, ◌≡◌, refl, ◌∙◌}
use mathlib.Core.Path.{subst}
use cs.Guess.Range.{low, high, covered}
use cs.Guess.Memory.{Shared}
use cs.Guess.Client.{Client, exited}
use cs.Guess.System.{System, Reach}
use cs.Guess.Invariant.Defs.{ClientFact, client_turn, server_turn}
use cs.Guess.Invariant.Reachable.{Reach-Inv}

module _ {n m : ℕ} {secret : ℕ → ℕ} {start : Shared} {s : System} (fits : 0 < n / m)
    (r : Reach n m secret start s) where
  ended :
      (id : ℕ) (c : Client)
      → id < m
      → s.client id ≡ c
      → c ≡ exited
      → (j : ℕ) → low n m id ≤ j
      → j < high n m id
      → s.mem.shm1 j ≡ secret j
  ended id c h e f j a b =
      let inv = Reach-Inv n m secret fits r id h in
      inv.sound j a b
        (subst (ClientFact (low n m id) (high n m id) s.mem.shm2) (e ∙ f) inv.client_fact j a b)

  -- A client thread that has ended has guessed every letter of its part.
  pub exited-right :
      (id : ℕ)
      → id < m
      → s.client id ≡ exited
      → (j : ℕ) → low n m id ≤ j
      → j < high n m id
      → s.mem.shm1 j ≡ secret j
  exited-right id h e = ended id (s.client id) h refl e

  -- When all client threads have ended, the first `m * (n / m)` letters are those of the secret.
  pub all_exited-right :
      ((id : ℕ) → id < m → s.client id ≡ exited)
      → (j : ℕ) → j < m * (n / m)
      → s.mem.shm1 j ≡ secret j
  all_exited-right all j h =
      let (id, lt, a, b) = covered n m j h in exited-right id lt (all id lt) j a b

  -- In every reachable state exactly one of these holds for each pair of threads: the client's
  -- thread is not at `sem_wait`; the server's thread compares or is at `sem_post`; the semaphore
  -- of the one is up, by one; the semaphore of the other is up, by one.
  pub take_turns :
      (id : ℕ)
      → id < m
      → client_turn (s.client id) + s.mem.sem id + server_turn (s.server id) + s.mem.sem (id + m)
        ≡ 1
  take_turns id h = (Reach-Inv n m secret fits r id h).turn
