-- ===== src/Guess/Exact/Guesses.antt =====
-- A step of the client's thread keeps its pair exact (Assignment2/client.c).
use mathlib.Core.Path.{subst}
use cs.Prelude.{
  ℕ, ◌+◌, ◌≤◌, ◌<◌, ◌≡◌, Bool, true, false, Option, none, some, ◌==◌, ltb, arith, Bool-cases, inl,
  inr, if◌then◌else◌,
}
use cs.Guess.Range.{low, high, high-le}
use cs.Guess.Memory.{Shared}
use cs.Guess.Server.{Server}
use cs.Guess.Client.{Client, start, filling, posting, waiting, sweeping, exited, client_step}
use cs.Guess.Invariant.Defs.{PairInv, server_turn}
use cs.Guess.Exact.{ServerExact, ClientExact, PairExact, AreLetters}

module _ (n m : ℕ) (secret : ℕ → ℕ) (letters : AreLetters n secret) (id : ℕ) (lt : id < m) where
  abbrev lo : ℕ
  lo = low n m id

  abbrev hi : ℕ
  hi = high n m id

  abbrev Kept : Server → Option (Shared × Client) → Type 0
  Kept s none = Unit
  Kept s (some (mem, c)) = PairExact n m secret id mem s c

  -- A server that does not have the turn has nothing to show.
  idle-ServerExact :
      (shm1 shm2 : ℕ → ℕ) (s : Server) → server_turn s ≡ 0 → ServerExact secret lo hi shm1 shm2 s
  idle-ServerExact shm1 shm2 Server.start e = tt
  idle-ServerExact shm1 shm2 (Server.checking i) e = tt
  idle-ServerExact shm1 shm2 Server.waiting e = tt
  idle-ServerExact shm1 shm2 (Server.comparing i) e = absurd (omega arith)
  idle-ServerExact shm1 shm2 Server.posting e = absurd (omega arith)
  idle-ServerExact shm1 shm2 Server.exited e = tt

  letter : (j : ℕ) → j < hi → (b'A' ≤ secret j) × (secret j < 256)
  letter j h = letters j (omega (arith, high-le n m id lt))

  moved :
      (c c' : Client) (s : Server) (mem : Shared)
      → PairExact n m secret id mem s c
      → ClientExact secret lo hi mem.shm1 mem.shm2 c'
      → PairExact n m secret id mem s c'
  moved c c' s mem x f = record {
    bounded = x.bounded;
    compared = x.compared;
    answered = x.answered;
    swept = f;
  }

  kept :
      (c : Client) (s : Server) (mem : Shared)
      → PairInv n m secret id mem s c
      → PairExact n m secret id mem s c
      → Kept s (client_step n m id c mem)
  unfolding client_step
  kept start s mem inv x = elim (Bool-cases (mem.client_no == id)) [
    | inl t ↦
        rw t
          (record { bounded = x.bounded; compared = x.compared; answered = x.answered; swept = tt })
    | inr f ↦ rw f tt
  ]
  kept (filling i) s mem inv x = elim (Bool-cases (ltb i hi)) [
    | inl t ↦ rw t (record {
      bounded = λ j a b. ground (arith, x.bounded j a b, letter j b);
      compared = idle-ServerExact _ _ s (omega (arith, inv.turn));
      answered = λ e. absurd (omega (arith, inv.turn));
      swept = tt;
    })
    | inr f ↦ rw f (moved (filling i) posting s mem x tt)
  ]
  kept posting s mem inv x = record {
    bounded = x.bounded;
    compared = x.compared;
    answered = λ e. absurd (ground (arith, inv.turn));
    swept = tt;
  }
  kept waiting s mem inv x = elim (Bool-cases (mem.sem (id + m) == 0)) [
    | inl t ↦ rw t tt
    | inr f ↦ rw f (record {
      bounded = x.bounded;
      compared = x.compared;
      answered = λ e. absurd (ground (arith, inv.turn));
      swept = (omega arith, x.answered (ground (arith, inv.turn)));
    })
  ]
  kept (sweeping k flag) s mem inv x = elim (Bool-cases (ltb k hi)) [
    | inl t ↦ elim (Bool-cases (mem.shm2 k == 0)) [
      | inl z ↦
          rw (t, z)
            (record {
              bounded =
                  λ j a b. ground (arith, x.bounded j a b, letter j b, x.swept.1 k, x.swept.0);
              compared = idle-ServerExact _ _ s (omega (arith, inv.turn));
              answered = λ e. absurd (omega (arith, inv.turn));
              swept = (omega (arith, x.swept.0), λ j a b e. ground (arith, x.swept.1 j));
            })
      | inr z ↦
          rw (t, z)
            (moved (sweeping k flag) (sweeping (k + 1) flag) s mem x
              (omega (arith, x.swept.0), λ j a b. x.swept.1 j (omega arith) b))
    ]
    | inr f ↦ rw f (turned flag)
  ]
    where
      turned : (b : Bool) → Kept s (if b then some (mem, posting) else some (mem, exited))
      turned true = moved (sweeping k flag) posting s mem x tt
      turned false = moved (sweeping k flag) exited s mem x tt
  kept exited s mem inv x = tt

  pub client_step-PairExact :
      (c : Client) (s : Server) (mem : Shared) {mem' : Shared} {c' : Client}
      → PairInv n m secret id mem s c
      → PairExact n m secret id mem s c
      → client_step n m id c mem ≡ some (mem', c')
      → PairExact n m secret id mem' s c'
  client_step-PairExact c s mem inv x e = subst (Kept s) e (kept c s mem inv x)
