-- ===== src/Guess/Progress.antt =====
-- The game never stops before every thread has ended (Assignment2/server.c, Assignment2/client.c).
mod Numbers
mod Pair
use cs.Prelude.{ℕ, zero, suc, ◌/◌, ◌≤◌, ◌<◌, ◌≡◌, ◌⊎◌, inl, inr, arith}
use mathlib.Core.Path.{subst}
use native.Mathlib.Decide.{dec_lt}
use cs.Guess.Memory.{Shared}
use cs.Guess.Server.{Server}
use cs.Guess.Client.{Client}
use cs.Guess.System.{System, Step, Reach}
use cs.Guess.Progress.Pair.{pair-progress, PairDone}

module _ (n m : ℕ) (secret : ℕ → ℕ) where
  -- Every thread has ended.
  abbrev pub AllDone : System → Type 0
  AllDone s = (id : ℕ) → id < m → (s.server id ≡ Server.exited) × (s.client id ≡ Client.exited)

  some-Step :
      {start : Shared} {s : System}
      → 0 < n / m
      → Reach n m secret start s
      → (k : ℕ) → k ≤ m
      → ((id : ℕ) → id < k → PairDone s id) ⊎ ((t : System) × Step n m secret s t)
  some-Step fits r zero h = inl (λ id q. absurd (omega arith))
  some-Step {s} fits r (suc k) h = elim (some-Step fits r k (omega arith)) [
    | inr st ↦ inr st
    | inl done ↦ elim (pair-progress n m secret s fits r k (omega arith)) [
      | inr st ↦ inr st
      | inl last ↦ inl (λ id q. elim (dec_lt id k) [
        | yes below ↦ done id below
        | no not_below ↦ let e : k ≡ id = omega arith in subst (PairDone s) e last
      ])
    ]
  ]

  -- No deadlock: with no more threads than letters, in every reachable state either all threads
  -- of both processes have ended or some thread can make a step.
  pub deadlock_free :
      {start : Shared} (s : System)
      → 0 < n / m
      → Reach n m secret start s
      → AllDone s ⊎ ((t : System) × Step n m secret s t)
  deadlock_free s fits r = elim (some-Step fits r m (omega arith)) [
    | inl done ↦ inl (λ id lt. ((done id lt).server_done, (done id lt).client_done))
    | inr st ↦ inr st
  ]
