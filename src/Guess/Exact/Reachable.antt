-- ===== src/Guess/Exact/Reachable.antt =====
-- Every pair of threads is exact in every reachable state of the game.
use cs.Prelude.{ℕ, ◌+◌, ◌/◌, ◌≤◌, ◌<◌, sym, ◌∙◌, ◌==◌, ==_iff, arith, Bool-cases, inl, inr}
use mathlib.Core.Path.{subst}
use cs.Guess.Range.{low, high, high-le}
use cs.Guess.Memory.{Shared}
use cs.Guess.Server.{Server, comparing}
use cs.Guess.Client.{Client, sweeping}
use cs.Guess.System.{System, Step, serve, guess, Reach, begin, later, IsFresh, launch}
use cs.Guess.Invariant.Frame.{SameFor, server_step-SameFor, client_step-SameFor}
use cs.Guess.Invariant.Reachable.{Reach-Inv}
use cs.Guess.Exact.{Exact, ServerExact, ClientExact, PairExact, AreLetters}
use cs.Guess.Exact.Serve.{server_step-PairExact}
use cs.Guess.Exact.Guesses.{client_step-PairExact}

module _ (n m : ℕ) (secret : ℕ → ℕ) where
  module _ (id : ℕ) (mem mem' : Shared) (same : SameFor n m secret id mem mem') where
    Exact-same :
        (i k : ℕ)
        → low n m id ≤ i
        → k ≤ high n m id
        → Exact secret i k mem.shm1 mem.shm2
        → Exact secret i k mem'.shm1 mem'.shm2
    Exact-same i k h g f j a b e p =
        f j a b (sym (same.shm2 j (omega arith) (omega arith)) ∙ e)
          (sym (same.shm1 j (omega arith) (omega arith)) ∙ p)

    ServerExact-same :
        (s : Server)
        → ServerExact secret (low n m id) (high n m id) mem.shm1 mem.shm2 s
        → ServerExact secret (low n m id) (high n m id) mem'.shm1 mem'.shm2 s
    ServerExact-same Server.start f = tt
    ServerExact-same (Server.checking i) f = tt
    ServerExact-same Server.waiting f = tt
    ServerExact-same (comparing i) f = (f.0, Exact-same (low n m id) i (omega arith) f.0 f.1)
    ServerExact-same Server.posting f =
        Exact-same (low n m id) (high n m id) (omega arith) (omega arith) f
    ServerExact-same Server.exited f = tt

    ClientExact-same :
        (c : Client)
        → ClientExact secret (low n m id) (high n m id) mem.shm1 mem.shm2 c
        → ClientExact secret (low n m id) (high n m id) mem'.shm1 mem'.shm2 c
    ClientExact-same Client.start f = tt
    ClientExact-same (Client.filling i) f = tt
    ClientExact-same Client.posting f = tt
    ClientExact-same Client.waiting f = tt
    ClientExact-same (sweeping k flag) f = (f.0, Exact-same k (high n m id) f.0 (omega arith) f.1)
    ClientExact-same Client.exited f = tt

    PairExact-same :
        (s : Server) (c : Client)
        → PairExact n m secret id mem s c
        → PairExact n m secret id mem' s c
    PairExact-same s c x = record {
      bounded = λ j a b. omega (arith, x.bounded j a b, same.shm1 j a b);
      compared = ServerExact-same s x.compared;
      answered = λ e.
          Exact-same (low n m id) (high n m id) (omega arith) (omega arith)
            (x.answered (sym same.answer ∙ e));
      swept = ClientExact-same c x.swept;
    }

  abbrev pub AllExact : System → Type 0
  AllExact s = (id : ℕ) → id < m → PairExact n m secret id s.mem (s.server id) (s.client id)

  module _ (fits : 0 < n / m) (letters : AreLetters n secret) where
    launch-AllExact : {start : Shared} → IsFresh n m start → AllExact (launch start)
    launch-AllExact f id h = record {
      bounded = λ j a b.
          let within : j < n = omega (arith, high-le n m id h) in
          omega (arith, letters j within, f.guesses j within);
      compared = tt;
      answered = λ e. absurd (omega (arith, f.semaphores (id + m) (omega arith)));
      swept = tt;
    }

    Step-AllExact :
        {start : Shared} {s t : System}
        → Reach n m secret start s
        → AllExact s
        → Step n m secret s t
        → AllExact t
    Step-AllExact {s} r x (serve id {mem} {pc} lt e) other h =
        let inv = Reach-Inv n m secret fits r in
        elim (Bool-cases (id == other)) [
          | inl eq ↦ rw eq (
              subst (λ i. PairExact n m secret i mem pc (s.client i)) ((==_iff id other).0 eq)
                (server_step-PairExact n m secret id lt (s.server id) (s.client id) s.mem
                  (inv id lt) (x id lt) e))
          | inr ne ↦ rw ne (
              PairExact-same other s.mem mem
                (server_step-SameFor n m secret id other (ground arith) lt h s.mem (s.server id)
                  (inv id lt).server_fact e)
                (s.server other) (s.client other) (x other h))
        ]
    Step-AllExact {s} r x (guess id {mem} {pc} lt e) other h =
        let inv = Reach-Inv n m secret fits r in
        elim (Bool-cases (id == other)) [
          | inl eq ↦ rw eq (
              subst (λ i. PairExact n m secret i mem (s.server i) pc) ((==_iff id other).0 eq)
                (client_step-PairExact n m secret letters id lt (s.client id) (s.server id) s.mem
                  (inv id lt) (x id lt) e))
          | inr ne ↦ rw ne (
              PairExact-same other s.mem mem
                (client_step-SameFor n m secret id other (ground arith) lt h s.mem (s.client id)
                  (inv id lt).client_fact e)
                (s.server other) (s.client other) (x other h))
        ]

    pub Reach-AllExact : {start : Shared} {s : System} → Reach n m secret start s → AllExact s
    Reach-AllExact (begin f) = launch-AllExact f
    Reach-AllExact (later r st) = Step-AllExact r (Reach-AllExact r) st
