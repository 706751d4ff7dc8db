-- ===== src/Guess/Ends/Serve.antt =====
-- A step of the server's thread leaves less of the round (Assignment2/server.c).
use mathlib.Core.Path.{subst}
use cs.Prelude.{ℕ, ◌<◌, ◌≡◌, Option, none, some, ◌==◌, ltb, arith, Bool-cases, inl, inr}
use cs.Guess.Range.{high}
use cs.Guess.Memory.{Shared}
use cs.Guess.Server.{Server, start, checking, waiting, comparing, posting, exited, server_step}
use cs.Guess.Client.{Client}
use cs.Guess.Invariant.Defs.{PairInv}
use cs.Guess.Ends.{round_left, potential, high-eq-add}

module _ (n m : ℕ) (secret : ℕ → ℕ) (id : ℕ) (lt : id < m) where
  abbrev Falls : Client → ℕ → Option (Shared × Server) → Type 0
  Falls c before none = Unit
  Falls c before (some (mem, s)) = potential n m secret id mem s c < before

  falls :
      (s : Server) (c : Client) (mem : Shared)
      → PairInv n m secret id mem s c
      → Falls c (potential n m secret id mem s c) (server_step n m secret id s mem)
  unfolding server_step potential round_left
  falls start c mem inv = elim (Bool-cases (mem.server_no == id)) [
    | inl t ↦ rw t (omega (arith, high-eq-add n m id))
    | inr f ↦ rw f tt
  ]
  falls (checking i) c mem inv = elim (Bool-cases (ltb i (high n m id))) [
    | inl t ↦ elim (Bool-cases (mem.shm2 i == 0)) [
      | inl z ↦ rw (t, z) (omega arith)
      | inr z ↦ rw (t, z) (ground arith)
    ]
    | inr f ↦ rw f (omega arith)
  ]
  falls waiting c mem inv = elim (Bool-cases (mem.sem id == 0)) [
    | inl t ↦ rw t tt
    | inr f ↦ rw f (ground (arith, high-eq-add n m id, inv.turn))
  ]
  falls (comparing i) c mem inv = elim (Bool-cases (ltb i (high n m id))) [
    | inl t ↦ rw t (ground arith)
    | inr f ↦ rw f (omega arith)
  ]
  falls posting c mem inv = ground (arith, high-eq-add n m id, inv.turn)
  falls exited c mem inv = tt

  pub server_step-falls :
      (s : Server) (c : Client) (mem : Shared) {mem' : Shared} {s' : Server}
      → PairInv n m secret id mem s c
      → server_step n m secret id s mem ≡ some (mem', s')
      → potential n m secret id mem' s' c < potential n m secret id mem s c
  server_step-falls s c mem inv e =
      subst (Falls c (potential n m secret id mem s c)) e (falls s c mem inv)
