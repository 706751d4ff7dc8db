-- ===== src/Guess/Progress/Pair.antt =====
-- A pair of threads has ended, or some thread of the game can make a step.
use cs.Prelude.{
  ℕ, ◌+◌, ◌/◌, ◌<◌, ◌≡◌, ◌≢◌, ◌⊎◌, refl, inl, inr, false, none, ◌==◌, arith, Option-cases,
}
use cs.Guess.Memory.{Shared}
use cs.Guess.Server.{Server, checking, comparing, server_step}
use cs.Guess.Client.{Client, filling, sweeping, client_step}
use cs.Guess.System.{System, Step, serve, guess, Reach}
use cs.Guess.Invariant.Defs.{PairInv}
use cs.Guess.Invariant.Reachable.{Reach-Inv}
use cs.Guess.Progress.Numbers.{Reach-Numbered, server_drawn, client_drawn}

pub record PairDone (s : System) (id : ℕ) : Type 0 where
  pub server_done : s.server id ≡ Server.exited
  pub client_done : s.client id ≡ Client.exited

module _ (n m : ℕ) (secret : ℕ → ℕ) (id : ℕ) (mem : Shared) where
  -- Why a server thread, or a client thread, cannot move.
  abbrev ServerBlocked : Server → Type 0
  ServerBlocked Server.start = (mem.server_no == id) ≡ false
  ServerBlocked Server.waiting = mem.sem id ≡ 0
  ServerBlocked Server.exited = Unit
  ServerBlocked _ = ⊥

  abbrev ClientBlocked : Client → Type 0
  ClientBlocked Client.start = (mem.client_no == id) ≡ false
  ClientBlocked Client.waiting = mem.sem (id + m) ≡ 0
  ClientBlocked Client.exited = Unit
  ClientBlocked _ = ⊥

  server_blocked : (s : Server) → server_step n m secret id s mem ≡ none → ServerBlocked s
  unfolding server_step
  server_blocked Server.start e = ground arith
  server_blocked (checking i) e = ground arith
  server_blocked Server.waiting e = ground arith
  server_blocked (comparing i) e = ground arith
  server_blocked Server.posting e = cc
  server_blocked Server.exited e = tt

  client_blocked : (c : Client) → client_step n m id c mem ≡ none → ClientBlocked c
  unfolding client_step
  client_blocked Client.start e = ground arith
  client_blocked (filling i) e = ground arith
  client_blocked Client.posting e = cc
  client_blocked Client.waiting e = ground arith
  client_blocked (sweeping k flag) e = ground arith
  client_blocked Client.exited e = tt

  -- Two threads of a pair that cannot move and have drawn their numbers have ended.
  stopped :
      (s : Server) (c : Client)
      → PairInv n m secret id mem s c
      → ServerBlocked s
      → ClientBlocked c
      → s ≢ Server.start
      → c ≢ Client.start
      → (s ≡ Server.exited) × (c ≡ Client.exited)
  stopped Server.start c inv sb cb s1 c1 = absurd (s1 refl)
  stopped Server.waiting Client.start inv sb cb s1 c1 = absurd (c1 refl)
  stopped Server.waiting Client.waiting inv sb cb s1 c1 = absurd (omega (arith, inv.turn))
  stopped Server.waiting Client.exited inv sb cb s1 c1 =
      let (j, a, b, e) = inv.server_fact in absurd (inv.client_fact j a b e)
  stopped Server.exited Client.start inv sb cb s1 c1 = absurd (c1 refl)
  stopped Server.exited Client.waiting inv sb cb s1 c1 =
      let (j, a, b, e) = inv.asked (omega (arith, inv.turn)) in absurd (inv.server_fact j a b e)
  stopped Server.exited Client.exited inv sb cb s1 c1 = (refl, refl)
  stopped (checking i) c inv sb cb s1 c1 = absurd sb
  stopped (comparing i) c inv sb cb s1 c1 = absurd sb
  stopped Server.posting c inv sb cb s1 c1 = absurd sb
  stopped Server.waiting (filling i) inv sb cb s1 c1 = absurd cb
  stopped Server.waiting Client.posting inv sb cb s1 c1 = absurd cb
  stopped Server.waiting (sweeping k flag) inv sb cb s1 c1 = absurd cb
  stopped Server.exited (filling i) inv sb cb s1 c1 = absurd cb
  stopped Server.exited Client.posting inv sb cb s1 c1 = absurd cb
  stopped Server.exited (sweeping k flag) inv sb cb s1 c1 = absurd cb

module _ (n m : ℕ) (secret : ℕ → ℕ) (s : System) where
  serves :
      (id : ℕ)
      → id < m
      → ServerBlocked n m secret id s.mem (s.server id) ⊎ ((t : System) × Step n m secret s t)
  serves id lt = elim (Option-cases (server_step n m secret id (s.server id) s.mem)) [
    | inl e ↦ inl (server_blocked n m secret id s.mem (s.server id) e)
    | inr (p, e) ↦ inr (_, serve id {mem = p.0} {pc = p.1} lt e)
  ]

  guesses :
      (id : ℕ)
      → id < m
      → ClientBlocked n m secret id s.mem (s.client id) ⊎ ((t : System) × Step n m secret s t)
  guesses id lt = elim (Option-cases (client_step n m id (s.client id) s.mem)) [
    | inl e ↦ inl (client_blocked n m secret id s.mem (s.client id) e)
    | inr (p, e) ↦ inr (_, guess id {mem = p.0} {pc = p.1} lt e)
  ]

  -- While a thread of a process stands at the mutex, the next one to draw can move.
  server_start-Step :
      {start : Shared}
      → Reach n m secret start s
      → (id : ℕ) → id < m
      → s.server id ≡ Server.start
      → (t : System) × Step n m secret s t
  server_start-Step r id lt e =
      let at_id = (Reach-Numbered n m secret r id).servers in
      let next = (Reach-Numbered n m secret r s.mem.server_no).servers in
      elim (serves s.mem.server_no (ground (arith, at_id))) [
        | inr st ↦ st
        | inl b ↦ absurd (draws (s.server s.mem.server_no) b (ground (arith, next)))
      ]
    where
      draws :
          (p : Server)
          → ServerBlocked n m secret s.mem.server_no s.mem p
          → server_drawn p ≡ false
          → ⊥
      draws Server.start b d = ground arith
      draws _ b d = cc

  client_start-Step :
      {start : Shared}
      → Reach n m secret start s
      → (id : ℕ) → id < m
      → s.client id ≡ Client.start
      → (t : System) × Step n m secret s t
  client_start-Step r id lt e =
      let at_id = (Reach-Numbered n m secret r id).clients in
      let next = (Reach-Numbered n m secret r s.mem.client_no).clients in
      elim (guesses s.mem.client_no (ground (arith, at_id))) [
        | inr st ↦ st
        | inl b ↦ absurd (draws (s.client s.mem.client_no) b (ground (arith, next)))
      ]
    where
      draws :
          (p : Client)
          → ClientBlocked n m secret s.mem.client_no s.mem p
          → client_drawn p ≡ false
          → ⊥
      draws Client.start b d = ground arith
      draws _ b d = cc

  server_start-cases : (p : Server) → (p ≡ Server.start) ⊎ (p ≢ Server.start)
  server_start-cases Server.start = inl refl
  server_start-cases _ = inr (λ e. cc)

  client_start-cases : (p : Client) → (p ≡ Client.start) ⊎ (p ≢ Client.start)
  client_start-cases Client.start = inl refl
  client_start-cases _ = inr (λ e. cc)

  pub pair-progress :
      {start : Shared}
      → 0 < n / m
      → Reach n m secret start s
      → (id : ℕ) → id < m
      → PairDone s id ⊎ ((t : System) × Step n m secret s t)
  pair-progress fits r id lt = elim (server_start-cases (s.server id)) [
    | inl e ↦ inr (server_start-Step r id lt e)
    | inr s1 ↦ elim (client_start-cases (s.client id)) [
      | inl e ↦ inr (client_start-Step r id lt e)
      | inr c1 ↦ elim (serves id lt) [
        | inr st ↦ inr st
        | inl sb ↦ elim (guesses id lt) [
          | inr st ↦ inr st
          | inl cb ↦
              let (a, b) =
                stopped n m secret id s.mem (s.server id) (s.client id)
                  (Reach-Inv n m secret fits r id lt) sb cb s1 c1 in
              inl (record { server_done = a; client_done = b })
        ]
      ]
    ]
  ]
