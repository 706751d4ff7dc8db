-- ===== src/Guess/Invariant/Reachable.antt =====
-- Every reachable state of the game satisfies the invariant of each pair of threads.
use cs.Prelude.{ℕ, ◌+◌, ◌/◌, ◌≤◌, ◌<◌, ◌≡◌, ◌==◌, ==_iff, arith, Bool-cases, inl, inr}
use mathlib.Core.Path.{subst}
use cs.Guess.System.{System, Step, serve, guess, Reach, begin, later, IsFresh, launch}
use cs.Guess.Range.{low, high, high-le}
use cs.Guess.Memory.{Shared}
use cs.Guess.Invariant.Defs.{PairInv}
use cs.Guess.Invariant.Serve.{server_step-PairInv}
use cs.Guess.Invariant.Guesses.{client_step-PairInv}
use cs.Guess.Invariant.Frame.{server_step-other, client_step-other}

module _ (n m : ℕ) (secret : ℕ → ℕ) where
  abbrev pub Inv : System → Type 0
  Inv s = (id : ℕ) → id < m → PairInv n m secret id s.mem (s.server id) (s.client id)

  launch-Inv : {start : Shared} → IsFresh n m start → Inv (launch start)
  launch-Inv {start} f id h =
      let ask : start.sem id ≡ 0 = f.semaphores id (omega arith) in
      let answer : start.sem (id + m) ≡ 0 = f.semaphores (id + m) (omega arith) in
      let zeros : (j : ℕ) → low n m id ≤ j → j < high n m id → start.shm2 j ≡ 0 =
        λ j a b. f.answers j (omega (arith, high-le n m id h)) in
      record {
        turn = omega arith;
        server_fact = tt;
        client_fact = zeros;
        asked = λ e. absurd (omega arith);
        sound = λ j a b q. absurd (q (zeros j a b));
      }

  Step-Inv : {s t : System} → 0 < n / m → Inv s → Step n m secret s t → Inv t
  Step-Inv {s} fits inv (serve id {mem} {pc} lt e) other h = elim (Bool-cases (id == other)) [
    | inl same ↦
        let eq = (==_iff id other).0 same in
        rw same (
          subst (λ x. PairInv n m secret x mem pc (s.client x)) eq
            (server_step-PairInv n m secret id lt (s.server id) (s.client id) s.mem (inv id lt) e))
    | inr ne ↦ rw ne (
        server_step-other n m secret id other (ground arith) lt h s.mem (s.server id)
          (s.server other) (s.client other) (inv id lt).server_fact e (inv other h))
  ]
  Step-Inv {s} fits inv (guess id {mem} {pc} lt e) other h = elim (Bool-cases (id == other)) [
    | inl same ↦
        let eq = (==_iff id other).0 same in
        rw same (
          subst (λ x. PairInv n m secret x mem (s.server x) pc) eq
            (client_step-PairInv n m secret id lt fits (s.server id) (s.client id) s.mem (inv id lt)
              e))
    | inr ne ↦ rw ne (
        client_step-other n m secret id other (ground arith) lt h s.mem (s.client id)
          (s.client other) (s.server other) (inv id lt).client_fact e (inv other h))
  ]

  pub Reach-Inv : {start : Shared} {s : System} → 0 < n / m → Reach n m secret start s → Inv s
  Reach-Inv fits (begin f) = launch-Inv f
  Reach-Inv fits (later r st) = Step-Inv fits (Reach-Inv fits r) st
