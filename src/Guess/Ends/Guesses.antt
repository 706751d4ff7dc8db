-- ===== src/Guess/Ends/Guesses.antt =====
-- A step of the client's thread leaves less of the game (Assignment2/client.c).
use mathlib.Core.Path.{subst}
use cs.Prelude.{
  ℕ, ◌+◌, ◌*◌, ◌/◌, ◌%◌, ◌≤◌, ◌<◌, ◌≡◌, Bool, true, false, Option, none, some, ◌==◌, ltb, arith,
  Bool-cases, inl, inr, if◌then◌else◌,
}
use cs.Guess.Range.{low, high, high-le}
use cs.Guess.Memory.{Shared, update}
use cs.Guess.Server.{Server}
use cs.Guess.Client.{Client, start, filling, posting, waiting, sweeping, exited, client_step}
use cs.Guess.Invariant.Defs.{PairInv}
use cs.Guess.Exact.{PairExact, AreLetters}
use cs.Guess.Ends.{round_cost, round_left, rounds_left, potential, high-eq-add}
use cs.Guess.Ends.Deficit.{deficit-le, deficit-bump}

mul-suc : (w d d' : ℕ) → d' + 1 ≡ d → w * d' + w ≡ w * d
mul-suc w d d' e = subst (λ x. w * d' + w ≡ w * x) e (grind arith)

mul-le : (w d d' : ℕ) → d' ≤ d → w * d' ≤ w * d
mul-le w d d' h = grind arith

module _ (n m : ℕ) (secret : ℕ → ℕ) (letters : AreLetters n secret) (id : ℕ) (lt : id < m) where
  abbrev lo : ℕ
  lo = low n m id

  abbrev hi : ℕ
  hi = high n m id

  abbrev Falls : Server → ℕ → Option (Shared × Client) → Type 0
  Falls s before none = Unit
  Falls s before (some (mem, c)) = potential n m secret id mem s c < before

  -- A guess that is wrong takes a round off what is left.
  bump-rounds :
      (k : ℕ) (flag : Bool) (s : Server) (mem : Shared)
      → k < hi
      → mem.shm2 k ≡ 0
      → PairExact n m secret id mem s (sweeping k flag)
      → rounds_left n m secret id
            (update mem.shm1 k ((mem.shm1 k + 1) % 256))
            (sweeping (k + 1) true)
          + round_cost (n / m)
        ≡ rounds_left n m secret id mem.shm1 (sweeping k flag)
  unfolding rounds_left
  bump-rounds k flag s mem b z x = mul-suc (round_cost (n / m)) _ _ (
      deficit-bump secret mem.shm1 lo (n / m) k x.swept.0 (omega (arith, high-eq-add n m id))
        (ground (arith, x.bounded k x.swept.0 b, x.swept.1 k (omega arith) b z))
        (letters k (omega (arith, high-le n m id lt))).1)

  fill-rounds :
      (i : ℕ) (shm1 : ℕ → ℕ)
      → rounds_left n m secret id shm1 posting ≤ rounds_left n m secret id shm1 (filling i)
  unfolding rounds_left
  fill-rounds i shm1 = mul-le (round_cost (n / m)) _ _ (deficit-le secret shm1 lo (n / m))

  falls :
      (c : Client) (s : Server) (mem : Shared)
      → PairInv n m secret id mem s c
      → PairExact n m secret id mem s c
      → Falls s (potential n m secret id mem s c) (client_step n m id c mem)
  unfolding client_step potential round_left rounds_left
  falls start s mem inv x = elim (Bool-cases (mem.client_no == id)) [
    | inl t ↦ rw t (omega (arith, high-eq-add n m id))
    | inr f ↦ rw f tt
  ]
  falls (filling i) s mem inv x = elim (Bool-cases (ltb i hi)) [
    | inl t ↦ rw t (ground arith)
    | inr f ↦ rw f (omega (arith, fill-rounds i mem.shm1))
  ]
  falls posting s mem inv x = ground (arith, inv.turn)
  falls waiting s mem inv x = elim (Bool-cases (mem.sem (id + m) == 0)) [
    | inl t ↦ rw t tt
    | inr f ↦ rw f (ground (arith, high-eq-add n m id, inv.turn))
  ]
  falls (sweeping k flag) s mem inv x = elim (Bool-cases (ltb k hi)) [
    | inl t ↦ elim (Bool-cases (mem.shm2 k == 0)) [
      | inl z ↦ rw (t, z) (ground (arith, bump-rounds k flag s mem (ground arith) (ground arith) x))
      | inr z ↦ rw (t, z) (ground arith)
    ]
    | inr f ↦ rw f (turned flag)
  ]
    where
      turned :
          (b : Bool)
          → Falls s
              (potential n m secret id mem s (sweeping k b))
              (if b then some (mem, posting) else some (mem, exited))
      turned true = omega arith
      turned false = omega arith
  falls exited s mem inv x = tt

  pub client_step-falls :
      (c : Client) (s : Server) (mem : Shared) {mem' : Shared} {c' : Client}
      → PairInv n m secret id mem s c
      → PairExact n m secret id mem s c
      → client_step n m id c mem ≡ some (mem', c')
      → potential n m secret id mem' s c' < potential n m secret id mem s c
  client_step-falls c s mem inv x e =
      subst (Falls s (potential n m secret id mem s c)) e (falls c s mem inv x)
