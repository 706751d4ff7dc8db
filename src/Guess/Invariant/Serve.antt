-- ===== src/Guess/Invariant/Serve.antt =====
-- A step of the server's thread keeps the invariant of its pair (Assignment2/server.c).
use mathlib.Core.Path.{subst}
use cs.Prelude.{ℕ, ◌<◌, ◌≡◌, refl, Option, none, some, ◌==◌, ltb, arith, Bool-cases, inl, inr}
use cs.Guess.Range.{low, high, low-le-high}
use cs.Guess.Memory.{Shared}
use cs.Guess.Server.{Server, start, checking, waiting, comparing, posting, exited, server_step}
use cs.Guess.Client.{Client}
use cs.Guess.Invariant.Defs.{ServerFact, ClientFact, PairInv, client_turn, server_turn}

module _ (n m : ℕ) (secret : ℕ → ℕ) (id : ℕ) (lt : id < m) where
  abbrev lo : ℕ
  lo = low n m id

  abbrev hi : ℕ
  hi = high n m id

  -- A server thread that compares finds the client at `sem_wait`.
  comparing-ClientFact : (shm2 : ℕ → ℕ) (c : Client) → client_turn c ≡ 0 → ClientFact lo hi shm2 c
  comparing-ClientFact shm2 Client.waiting e = tt
  comparing-ClientFact shm2 _ e = absurd (omega arith)

  -- The invariant in what a step returns, if the thread moves.
  abbrev Kept : Client → Option (Shared × Server) → Type 0
  Kept c none = Unit
  Kept c (some (mem, s)) = PairInv n m secret id mem s c

  -- A step that leaves memory alone needs only the fact about the new place.
  moved :
      (s s' : Server) (c : Client) (mem : Shared)
      → PairInv n m secret id mem s c
      → server_turn s ≡ server_turn s'
      → ServerFact lo hi mem.shm2 s'
      → PairInv n m secret id mem s' c
  moved s s' c mem inv t f = record {
    turn = omega (arith, inv.turn);
    server_fact = f;
    client_fact = inv.client_fact;
    asked = inv.asked;
    sound = inv.sound;
  }

  start-Kept :
      (c : Client) (mem : Shared)
      → PairInv n m secret id mem start c
      → Kept c (server_step n m secret id start mem)
  unfolding server_step
  start-Kept c mem inv = elim (Bool-cases (mem.server_no == id)) [
    | inl t ↦ rw t (record {
      turn = inv.turn;
      server_fact = (omega arith, low-le-high n m id, λ j a b. absurd (omega arith));
      client_fact = inv.client_fact;
      asked = inv.asked;
      sound = inv.sound;
    })
    | inr f ↦ rw f tt
  ]

  checking-Kept :
      (i : ℕ) (c : Client) (mem : Shared)
      → PairInv n m secret id mem (checking i) c
      → Kept c (server_step n m secret id (checking i) mem)
  unfolding server_step
  checking-Kept i c mem inv = elim (Bool-cases (ltb i hi)) [
    | inl t ↦ elim (Bool-cases (mem.shm2 i == 0)) [
      | inl z ↦
          rw (t, z) (moved _ _ c mem inv refl (i, inv.server_fact.0, ground arith, ground arith))
      | inr z ↦
          rw (t, z)
            (moved _ _ c mem inv refl (
              omega (arith, inv.server_fact.0),
              ground arith,
              λ j a b. ground (arith, inv.server_fact.2 j),
            ))
    ]
    | inr f ↦ rw f (moved _ _ c mem inv refl (λ j a b. inv.server_fact.2 j a (ground arith)))
  ]

  waiting-Kept :
      (c : Client) (mem : Shared)
      → PairInv n m secret id mem waiting c
      → Kept c (server_step n m secret id waiting mem)
  unfolding server_step
  waiting-Kept c mem inv = elim (Bool-cases (mem.sem id == 0)) [
    | inl t ↦ rw t tt
    | inr f ↦ rw f (record {
      turn = ground (arith, inv.turn);
      server_fact = omega arith;
      client_fact = inv.client_fact;
      asked = λ e. inv.asked (ground arith);
      sound = inv.sound;
    })
  ]

  comparing-Kept :
      (i : ℕ) (c : Client) (mem : Shared)
      → PairInv n m secret id mem (comparing i) c
      → Kept c (server_step n m secret id (comparing i) mem)
  unfolding server_step
  comparing-Kept i c mem inv = elim (Bool-cases (ltb i hi)) [
    | inl t ↦ rw t (record {
      turn = inv.turn;
      server_fact = omega (arith, inv.server_fact);
      client_fact = comparing-ClientFact _ c (omega (arith, inv.turn));
      asked = λ e. absurd (omega (arith, inv.turn));
      sound = λ j a b q. ground (arith, inv.sound j);
    })
    | inr f ↦ rw f (moved _ _ c mem inv refl tt)
  ]

  posting-Kept :
      (c : Client) (mem : Shared)
      → PairInv n m secret id mem posting c
      → Kept c (server_step n m secret id posting mem)
  unfolding server_step
  posting-Kept c mem inv = record {
    turn = ground (arith, inv.turn);
    server_fact = (omega arith, low-le-high n m id, λ j a b. absurd (omega arith));
    client_fact = inv.client_fact;
    asked = λ e. absurd (ground (arith, inv.turn));
    sound = inv.sound;
  }

  pub server_step-PairInv :
      (s : Server) (c : Client) (mem : Shared) {mem' : Shared} {s' : Server}
      → PairInv n m secret id mem s c
      → server_step n m secret id s mem ≡ some (mem', s')
      → PairInv n m secret id mem' s' c
  server_step-PairInv s c mem inv e = subst (Kept c) e (kept s inv)
    where
      kept : (s : Server) → PairInv n m secret id mem s c → Kept c (server_step n m secret id s mem)
      kept start inv = start-Kept c mem inv
      kept (checking i) inv = checking-Kept i c mem inv
      kept waiting inv = waiting-Kept c mem inv
      kept (comparing i) inv = comparing-Kept i c mem inv
      kept posting inv = posting-Kept c mem inv
      kept exited inv = unfold server_step in tt
