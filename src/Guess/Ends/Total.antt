-- ===== src/Guess/Ends/Total.antt =====
-- Every step of the game leaves less of it.
use cs.Prelude.{ℕ, zero, suc, ◌*◌, ◌/◌, ◌≤◌, ◌<◌, ◌≡◌, ◌≢◌, refl, arith, ◌==◌, true, false, dec_lt}
use cs.Guess.Range.{low}
use cs.Guess.Memory.{Shared}
use cs.Guess.Server.{Server}
use cs.Guess.Client.{Client, start, filling, posting, waiting, sweeping, exited}
use cs.Guess.System.{System, Step, serve, guess, Reach}
use cs.Guess.Invariant.Frame.{SameFor, server_step-SameFor, client_step-SameFor}
use cs.Guess.Invariant.Reachable.{Reach-Inv}
use cs.Guess.Exact.{AreLetters}
use cs.Guess.Exact.Reachable.{Reach-AllExact}
use cs.Guess.Ends.{
  deficit, shown, round_left, rounds_left, potential, sum_below, total, high-eq-add,
}
use cs.Guess.Ends.Deficit.{deficit-same}
use cs.Guess.Ends.Serve.{server_step-falls}
use cs.Guess.Ends.Guesses.{client_step-falls}

eq_self : (id : ℕ) → (id == id) ≡ true
eq_self id = ground arith

eq_apart : (id j : ℕ) → id ≢ j → (id == j) ≡ false
eq_apart id j apart = ground arith

sum_below-same :
    (f g : ℕ → ℕ) (k : ℕ) → ((j : ℕ) → j < k → g j ≡ f j) → sum_below g k ≡ sum_below f k
unfolding sum_below
sum_below-same f g zero h = refl
sum_below-same f g (suc k) h =
    omega (arith, h k (omega arith), sum_below-same f g k (λ j b. h j (omega arith)))

pub sum_below-falls :
    (f g : ℕ → ℕ) (k id : ℕ)
    → id < k
    → g id < f id
    → ((j : ℕ) → j < k → id ≢ j → g j ≡ f j)
    → sum_below g k < sum_below f k
unfolding sum_below
sum_below-falls f g zero id b lt h = absurd (omega arith)
sum_below-falls f g (suc k) id b lt h = elim (dec_lt id k) [
  | yes inside ↦
      let rest = sum_below-falls f g k id inside lt (λ j c. h j (omega arith)) in
      let same = h k (omega arith) (omega arith) in omega arith
  | no last ↦
      let rest = sum_below-same f g k (λ j c. h j (omega arith) (omega arith)) in
      ground (arith, rest)
]

pub sum_below-le :
    (f : ℕ → ℕ) (k bound : ℕ) → ((j : ℕ) → j < k → f j ≤ bound) → sum_below f k ≤ k * bound
unfolding sum_below
sum_below-le f zero bound h = omega arith
sum_below-le f (suc k) bound h =
    let rest = sum_below-le f k bound (λ j b. h j (omega arith)) in
    let last = h k (omega arith) in grind arith

module _ (n m : ℕ) (secret : ℕ → ℕ) where
  deficit-shown :
      (id : ℕ) (mem mem' : Shared) (c : Client)
      → SameFor n m secret id mem mem'
      → deficit secret (shown c mem'.shm1) (low n m id) (n / m)
        ≡ deficit secret (shown c mem.shm1) (low n m id) (n / m)
  deficit-shown id mem mem' c same = go c
    where
      here :
          deficit secret mem'.shm1 (low n m id) (n / m)
          ≡ deficit secret mem.shm1 (low n m id) (n / m)
      here =
          deficit-same secret mem.shm1 mem'.shm1 (low n m id) (n / m)
            (λ j a b. same.shm1 j a (omega (arith, high-eq-add n m id)))

      go :
          (c : Client)
          → deficit secret (shown c mem'.shm1) (low n m id) (n / m)
            ≡ deficit secret (shown c mem.shm1) (low n m id) (n / m)
      go start = refl
      go (filling i) = refl
      go posting = here
      go waiting = here
      go (sweeping k flag) = here
      go exited = here

  potential-same :
      (id : ℕ) (mem mem' : Shared) (s : Server) (c : Client)
      → SameFor n m secret id mem mem'
      → potential n m secret id mem' s c ≡ potential n m secret id mem s c
  unfolding potential round_left rounds_left
  potential-same id mem mem' s c same =
      rw (deficit-shown id mem mem' c same, same.ask, same.answer) refl

  module _ (fits : 0 < n / m) (letters : AreLetters n secret) where
    pub Step-total :
        {start : Shared} {s t : System}
        → Reach n m secret start s
        → Step n m secret s t
        → total n m secret t < total n m secret s
    unfolding total
    Step-total {s} r (serve id {mem} {pc} lt e) =
        sum_below-falls _ _ m id lt
          (rw (eq_self id) (
            server_step-falls n m secret id lt (s.server id) (s.client id) s.mem
              (Reach-Inv n m secret fits r id lt) e))
          (λ j b apart. rw (eq_apart id j apart) (
            potential-same j s.mem mem (s.server j) (s.client j) (
              server_step-SameFor n m secret id j apart lt b s.mem (s.server id)
                (Reach-Inv n m secret fits r id lt).server_fact e)))
    Step-total {s} r (guess id {mem} {pc} lt e) =
        sum_below-falls _ _ m id lt
          (rw (eq_self id) (
            client_step-falls n m secret letters id lt (s.client id) (s.server id) s.mem
              (Reach-Inv n m secret fits r id lt) (Reach-AllExact n m secret fits letters r id lt)
              e))
          (λ j b apart. rw (eq_apart id j apart) (
            potential-same j s.mem mem (s.server j) (s.client j) (
              client_step-SameFor n m secret id j apart lt b s.mem (s.client id)
                (Reach-Inv n m secret fits r id lt).client_fact e)))
