-- ===== src/Guess/Exact/Serve.antt =====
-- A step of the server's thread keeps its pair exact (Assignment2/server.c).
use mathlib.Core.Path.{subst}
use cs.Prelude.{ℕ, ◌+◌, ◌<◌, ◌≡◌, Option, none, some, ◌==◌, ltb, arith, Bool-cases, inl, inr}
use cs.Guess.Range.{low, high, low-le-high}
use cs.Guess.Memory.{Shared}
use cs.Guess.Server.{Server, start, checking, waiting, comparing, posting, exited, server_step}
use cs.Guess.Client.{Client}
use cs.Guess.Invariant.Defs.{PairInv, client_turn}
use cs.Guess.Exact.{ServerExact, ClientExact, PairExact}

module _ (n m : ℕ) (secret : ℕ → ℕ) (id : ℕ) (lt : id < m) where
  abbrev lo : ℕ
  lo = low n m id

  abbrev hi : ℕ
  hi = high n m id

  abbrev Kept : Client → Option (Shared × Server) → Type 0
  Kept c none = Unit
  Kept c (some (mem, s)) = PairExact n m secret id mem s c

  -- A client that waits has nothing to show.
  waiting-ClientExact :
      (shm1 shm2 : ℕ → ℕ) (c : Client) → client_turn c ≡ 0 → ClientExact secret lo hi shm1 shm2 c
  waiting-ClientExact shm1 shm2 Client.waiting e = tt
  waiting-ClientExact shm1 shm2 _ e = absurd (omega arith)

  moved :
      (s s' : Server) (c : Client) (mem : Shared)
      → PairExact n m secret id mem s c
      → ServerExact secret lo hi mem.shm1 mem.shm2 s'
      → PairExact n m secret id mem s' c
  moved s s' c mem x f = record {
    bounded = x.bounded;
    compared = f;
    answered = x.answered;
    swept = x.swept;
  }

  kept :
      (s : Server) (c : Client) (mem : Shared)
      → PairInv n m secret id mem s c
      → PairExact n m secret id mem s c
      → Kept c (server_step n m secret id s mem)
  unfolding server_step
  kept start c mem inv x = elim (Bool-cases (mem.server_no == id)) [
    | inl t ↦
        rw t (record { bounded = x.bounded; compared = tt; answered = x.answered; swept = x.swept })
    | inr f ↦ rw f tt
  ]
  kept (checking i) c mem inv x = elim (Bool-cases (ltb i hi)) [
    | inl t ↦ elim (Bool-cases (mem.shm2 i == 0)) [
      | inl z ↦ rw (t, z) (moved (checking i) waiting c mem x tt)
      | inr z ↦ rw (t, z) (moved (checking i) (checking (i + 1)) c mem x tt)
    ]
    | inr f ↦ rw f (moved (checking i) exited c mem x tt)
  ]
  kept waiting c mem inv x = elim (Bool-cases (mem.sem id == 0)) [
    | inl t ↦ rw t tt
    | inr f ↦ rw f (record {
      bounded = x.bounded;
      compared = (low-le-high n m id, λ j a b. absurd (omega arith));
      answered = λ e. x.answered (ground arith);
      swept = x.swept;
    })
  ]
  kept (comparing i) c mem inv x = elim (Bool-cases (ltb i hi)) [
    | inl t ↦ rw t (record {
      bounded = x.bounded;
      compared = (ground arith, λ j a b e. ground (arith, x.compared.1 j));
      answered = λ e. absurd (omega (arith, inv.turn));
      swept = waiting-ClientExact _ _ c (omega (arith, inv.turn));
    })
    | inr f ↦ rw f (moved (comparing i) posting c mem x (λ j a b. x.compared.1 j a (ground arith)))
  ]
  kept posting c mem inv x = record {
    bounded = x.bounded;
    compared = tt;
    answered = λ e. x.compared;
    swept = waiting-ClientExact _ _ c (omega (arith, inv.turn));
  }
  kept exited c mem inv x = tt

  pub server_step-PairExact :
      (s : Server) (c : Client) (mem : Shared) {mem' : Shared} {s' : Server}
      → PairInv n m secret id mem s c
      → PairExact n m secret id mem s c
      → server_step n m secret id s mem ≡ some (mem', s')
      → PairExact n m secret id mem' s' c
  server_step-PairExact s c mem inv x e = subst (Kept c) e (kept s c mem inv x)
