-- ===== src/Guess/Invariant/Guesses.antt =====
-- A step of the client's thread keeps the invariant of its pair (Assignment2/client.c).
use mathlib.Core.Path.{subst}
use cs.Prelude.{
  ℕ, ◌+◌, ◌/◌, ◌≤◌, ◌<◌, ◌≡◌, ◌≢◌, refl, Bool, true, false, Option, none, some, ◌==◌, ltb, arith,
  Bool-cases, inl, inr, if◌then◌else◌,
}
use cs.Guess.Range.{low, high, low-le-high, low-lt-high}
use cs.Guess.Memory.{Shared}
use cs.Guess.Server.{Server}
use cs.Guess.Client.{Client, start, filling, posting, waiting, sweeping, exited, client_step}
use cs.Guess.Invariant.Defs.{Wrong, ClientFact, PairInv, client_turn}

module _ (n m : ℕ) (secret : ℕ → ℕ) (id : ℕ) (lt : id < m) (fits : 0 < n / m) where
  abbrev lo : ℕ
  lo = low n m id

  abbrev hi : ℕ
  hi = high n m id

  -- The invariant in what a step returns, if the thread moves.
  abbrev Kept : Server → Option (Shared × Client) → Type 0
  Kept s none = Unit
  Kept s (some (mem, c)) = PairInv n m secret id mem s c

  -- A step that leaves memory alone needs only the fact about the new place.
  moved :
      (c c' : Client) (s : Server) (mem : Shared)
      → PairInv n m secret id mem s c
      → client_turn c ≡ client_turn c'
      → ClientFact lo hi mem.shm2 c'
      → PairInv n m secret id mem s c'
  moved c c' s mem inv t f = record {
    turn = omega (arith, inv.turn);
    server_fact = inv.server_fact;
    client_fact = f;
    asked = inv.asked;
    sound = inv.sound;
  }

  start-Kept :
      (s : Server) (mem : Shared)
      → PairInv n m secret id mem s start
      → Kept s (client_step n m id start mem)
  unfolding client_step
  start-Kept s mem inv = elim (Bool-cases (mem.client_no == id)) [
    | inl t ↦ rw t (record {
      turn = inv.turn;
      server_fact = inv.server_fact;
      client_fact = (omega arith, inv.client_fact);
      asked = inv.asked;
      sound = inv.sound;
    })
    | inr f ↦ rw f tt
  ]

  filling-Kept :
      (i : ℕ) (s : Server) (mem : Shared)
      → PairInv n m secret id mem s (filling i)
      → Kept s (client_step n m id (filling i) mem)
  unfolding client_step
  filling-Kept i s mem inv = elim (Bool-cases (ltb i hi)) [
    | inl t ↦ rw t (record {
      turn = inv.turn;
      server_fact = inv.server_fact;
      client_fact = (omega (arith, inv.client_fact.0), inv.client_fact.1);
      asked = inv.asked;
      sound = λ j a b q. absurd (q (inv.client_fact.1 j a b));
    })
    | inr f ↦
        let lt' : lo < hi = low-lt-high n m id fits in
        let first : Wrong lo hi mem.shm2 =
          (lo, omega arith, lt', inv.client_fact.1 lo (omega arith) lt') in
        rw f (moved _ _ s mem inv refl first)
  ]

  posting-Kept :
      (s : Server) (mem : Shared)
      → PairInv n m secret id mem s posting
      → Kept s (client_step n m id posting mem)
  unfolding client_step
  posting-Kept s mem inv = record {
    turn = ground (arith, inv.turn);
    server_fact = inv.server_fact;
    client_fact = tt;
    asked = λ e. inv.client_fact;
    sound = inv.sound;
  }

  waiting-Kept :
      (s : Server) (mem : Shared)
      → PairInv n m secret id mem s waiting
      → Kept s (client_step n m id waiting mem)
  unfolding client_step
  waiting-Kept s mem inv = elim (Bool-cases (mem.sem (id + m) == 0)) [
    | inl t ↦ rw t tt
    | inr f ↦ rw f (record {
      turn = ground (arith, inv.turn);
      server_fact = inv.server_fact;
      client_fact = (omega arith, low-le-high n m id, λ j a b. absurd (omega arith));
      asked = λ e. inv.asked (ground arith);
      sound = inv.sound;
    })
  ]

  -- The place of a sweep, and the letters in the part that it has passed.
  past : (k : ℕ) (flag : Bool) (shm2 : ℕ → ℕ) → ClientFact lo hi shm2 (sweeping k flag) → lo ≤ k
  past k true shm2 f = f.0
  past k false shm2 f = f.0

  next :
      (k : ℕ) (flag : Bool) (shm2 : ℕ → ℕ)
      → k < hi
      → ClientFact lo hi shm2 (sweeping k flag)
      → shm2 k ≢ 0
      → ClientFact lo hi shm2 (sweeping (k + 1) flag)
  next k true shm2 b f q = (omega (arith, f.0), f.1)
  next k false shm2 b f q = (omega (arith, f.0), omega arith, λ j a c. ground (arith, f.2 j))

  sweeping-Kept :
      (k : ℕ) (flag : Bool) (s : Server) (mem : Shared)
      → PairInv n m secret id mem s (sweeping k flag)
      → Kept s (client_step n m id (sweeping k flag) mem)
  unfolding client_step
  sweeping-Kept k flag s mem inv = elim (Bool-cases (ltb k hi)) [
    | inl t ↦ elim (Bool-cases (mem.shm2 k == 0)) [
      | inl z ↦
          let at : lo ≤ k = past k flag mem.shm2 inv.client_fact in
          rw (t, z)
            (record {
              turn = inv.turn;
              server_fact = inv.server_fact;
              client_fact = (omega arith, (k, at, ground arith, ground arith));
              asked = inv.asked;
              sound = λ j a b q. ground (arith, inv.sound j);
            })
      | inr z ↦
          rw (t, z)
            (moved _ _ s mem inv refl
              (next k flag mem.shm2 (ground arith) inv.client_fact (ground arith)))
    ]
    | inr f ↦ rw f (turned (ground arith) flag inv)
  ]
    where
      turned :
          hi ≤ k
          → (flag : Bool) → PairInv n m secret id mem s (sweeping k flag)
          → Kept s (if flag then some (mem, posting) else some (mem, exited))
      turned done true inv = moved _ _ s mem inv refl inv.client_fact.1
      turned done false inv =
          moved _ _ s mem inv refl (λ j a b. inv.client_fact.2 j a (omega arith))

  pub client_step-PairInv :
      (s : Server) (c : Client) (mem : Shared) {mem' : Shared} {c' : Client}
      → PairInv n m secret id mem s c
      → client_step n m id c mem ≡ some (mem', c')
      → PairInv n m secret id mem' s c'
  client_step-PairInv s c mem inv e = subst (Kept s) e (kept c inv)
    where
      kept : (c : Client) → PairInv n m secret id mem s c → Kept s (client_step n m id c mem)
      kept start inv = start-Kept s mem inv
      kept (filling i) inv = filling-Kept i s mem inv
      kept posting inv = posting-Kept s mem inv
      kept waiting inv = waiting-Kept s mem inv
      kept (sweeping k flag) inv = sweeping-Kept k flag s mem inv
      kept exited inv = unfold client_step in tt
