-- ===== src/Guess/Ends/Bound.antt =====
-- The length of every game (Assignment2/server.c, Assignment2/client.c).
use cs.Prelude.{ℕ, ◌+◌, ◌*◌, ◌/◌, ◌≤◌, ◌<◌, arith}
use cs.Guess.Range.{low, high-le}
use cs.Guess.System.{System, Reach, begin, later, IsFresh, launch}
use cs.Guess.Memory.{Shared}
use cs.Guess.Server.{Server}
use cs.Guess.Client.{Client}
use cs.Guess.Exact.{AreLetters}
use cs.Guess.Ends.{deficit, round_left, rounds_left, potential, total, high-eq-add}
use cs.Guess.Ends.Deficit.{deficit-bound}
use cs.Guess.Ends.Total.{sum_below-le, Step-total}

-- How many steps of threads led to a state.
abbrev pub steps :
    {n m : ℕ} {secret : ℕ → ℕ} {start : Shared} {s : System} → Reach n m secret start s → ℕ
steps (begin f) = 0
steps (later r st) = steps r + 1

-- With `len` letters for each pair of threads, (3 len + 7) steps for each of 256 rounds of each
-- letter, and 5 len + 11 around them.
abbrev pub step_bound : (n m : ℕ) → ℕ
step_bound n m = m * ((3 * (n / m) + 7) * (256 * (n / m)) + (5 * (n / m) + 11))

mul-le : (w d d' : ℕ) → d' ≤ d → w * d' ≤ w * d
mul-le w d d' h = grind arith

module _ (n m : ℕ) (secret : ℕ → ℕ) (letters : AreLetters n secret) where
  potential-launch :
      {start : Shared} (f : IsFresh n m start) (id : ℕ)
      → id < m
      → potential n m secret id start Server.start Client.start
        ≤ (3 * (n / m) + 7) * (256 * (n / m)) + (5 * (n / m) + 11)
  unfolding potential round_left rounds_left
  potential-launch f id lt =
      let within : deficit secret (λ _. 0) (low n m id) (n / m) ≤ 256 * (n / m) =
        deficit-bound secret (λ _. 0) (low n m id) (n / m)
          (λ j a b. (letters j (omega (arith, high-le n m id lt, high-eq-add n m id))).1) in
      ground (
        arith,
        mul-le (3 * (n / m) + 7) _ _ within,
        f.semaphores id (omega arith),
        f.semaphores (id + m) (omega arith),
      )

  total-launch :
      {start : Shared} (f : IsFresh n m start) → total n m secret (launch start) ≤ step_bound n m
  unfolding total
  total-launch f = sum_below-le _ m _ (potential-launch f)

  module _ (fits : 0 < n / m) where
    steps-total :
        {start : Shared} {s : System} (r : Reach n m secret start s)
        → steps r + total n m secret s ≤ step_bound n m
    steps-total (begin f) = omega (arith, total-launch f)
    steps-total (later r st) = omega (arith, steps-total r, Step-total n m secret fits letters r st)

    -- With no more threads than letters, and letters from 'A' on within a byte, no interleaving
    -- of the threads has more than m * ((3 * (n / m) + 7) * (256 * (n / m)) + (5 * (n / m) + 11))
    -- steps, whatever order they run in.
    pub game_ends :
        {start : Shared} {s : System} (r : Reach n m secret start s) → steps r ≤ step_bound n m
    game_ends r = omega (arith, steps-total r)
