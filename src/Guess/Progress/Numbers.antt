-- ===== src/Guess/Progress/Numbers.antt =====
-- The threads below `thread_no` have drawn their number; the others stand at the mutex.
use cs.Prelude.{
  ℕ, ◌+◌, ◌≡◌, ◌≢◌, refl, sym, ◌∙◌, inl, inr, Bool, true, false, Option, none, some, ◌==◌, ltb,
  arith, Bool-cases, ==_iff,
}
use mathlib.Core.Path.{subst}
use cs.Guess.Range.{high}
use cs.Guess.Memory.{Shared}
use cs.Guess.Server.{Server, checking, comparing, server_step}
use cs.Guess.Client.{Client, filling, sweeping, client_step}
use cs.Guess.System.{System, Step, serve, guess, Reach, begin, later}

abbrev pub server_drawn : Server → Bool
server_drawn Server.start = false
server_drawn _ = true

abbrev pub client_drawn : Client → Bool
client_drawn Client.start = false
client_drawn _ = true

-- Thread `id` has drawn its number exactly if that is below `thread_no`.
pub record Numbered (s : System) (id : ℕ) : Type 0 where
  pub servers : server_drawn (s.server id) ≡ ltb id s.mem.server_no
  pub clients : client_drawn (s.client id) ≡ ltb id s.mem.client_no

module _ (n m : ℕ) (secret : ℕ → ℕ) (id other : ℕ) (mem : Shared) where
  -- What a step does to the counters and to the places of its thread.
  abbrev ServerDraws : Server → Option (Shared × Server) → Type 0
  ServerDraws s none = Unit
  ServerDraws s (some (mem', s')) =
      (server_drawn s' ≡ ltb id mem'.server_no)
      × (id ≢ other → ltb other mem'.server_no ≡ ltb other mem.server_no)
      × (mem'.client_no ≡ mem.client_no)

  server_step-draws :
      (s : Server)
      → server_drawn s ≡ ltb id mem.server_no
      → ServerDraws s (server_step n m secret id s mem)
  unfolding server_step
  server_step-draws Server.start e = elim (Bool-cases (mem.server_no == id)) [
    | inl t ↦ rw t (ground arith, λ q. ground arith, refl)
    | inr f ↦ rw f tt
  ]
  server_step-draws (checking i) e = elim (Bool-cases (ltb i (high n m id))) [
    | inl t ↦ elim (Bool-cases (mem.shm2 i == 0)) [
      | inl z ↦ rw (t, z) (e, λ q. refl, refl)
      | inr z ↦ rw (t, z) (e, λ q. refl, refl)
    ]
    | inr f ↦ rw f (e, λ q. refl, refl)
  ]
  server_step-draws Server.waiting e = elim (Bool-cases (mem.sem id == 0)) [
    | inl t ↦ rw t tt
    | inr f ↦ rw f (e, λ q. refl, refl)
  ]
  server_step-draws (comparing i) e = elim (Bool-cases (ltb i (high n m id))) [
    | inl t ↦ rw t (e, λ q. refl, refl)
    | inr f ↦ rw f (e, λ q. refl, refl)
  ]
  server_step-draws Server.posting e = (e, λ q. refl, refl)
  server_step-draws Server.exited e = tt

  abbrev ClientDraws : Client → Option (Shared × Client) → Type 0
  ClientDraws c none = Unit
  ClientDraws c (some (mem', c')) =
      (client_drawn c' ≡ ltb id mem'.client_no)
      × (id ≢ other → ltb other mem'.client_no ≡ ltb other mem.client_no)
      × (mem'.server_no ≡ mem.server_no)

  client_step-draws :
      (c : Client)
      → client_drawn c ≡ ltb id mem.client_no
      → ClientDraws c (client_step n m id c mem)
  unfolding client_step
  client_step-draws Client.start e = elim (Bool-cases (mem.client_no == id)) [
    | inl t ↦ rw t (ground arith, λ q. ground arith, refl)
    | inr f ↦ rw f tt
  ]
  client_step-draws (filling i) e = elim (Bool-cases (ltb i (high n m id))) [
    | inl t ↦ rw t (e, λ q. refl, refl)
    | inr f ↦ rw f (e, λ q. refl, refl)
  ]
  client_step-draws Client.posting e = (e, λ q. refl, refl)
  client_step-draws Client.waiting e = elim (Bool-cases (mem.sem (id + m) == 0)) [
    | inl t ↦ rw t tt
    | inr f ↦ rw f (e, λ q. refl, refl)
  ]
  client_step-draws (sweeping k flag) e = elim (Bool-cases (ltb k (high n m id))) [
    | inl t ↦ elim (Bool-cases (mem.shm2 k == 0)) [
      | inl z ↦ rw (t, z) (e, λ q. refl, refl)
      | inr z ↦ rw (t, z) (e, λ q. refl, refl)
    ]
    | inr f ↦ elim (Bool-cases flag) [
      | inl t ↦ rw (f, t) (e, λ q. refl, refl)
      | inr t ↦ rw (f, t) (e, λ q. refl, refl)
    ]
  ]
  client_step-draws Client.exited e = tt

module _ (n m : ℕ) (secret : ℕ → ℕ) where
  Step-Numbered :
      {s t : System} → ((id : ℕ) → Numbered s id) → Step n m secret s t → (id : ℕ) → Numbered t id
  Step-Numbered {s} inv (serve id lt e) other =
      let (own, rest, kept) =
        subst (ServerDraws n m secret id other s.mem (s.server id)) e
          (server_step-draws n m secret id other s.mem (s.server id) (inv id).servers) in
      record {
        servers = elim (Bool-cases (id == other)) [
          | inl same ↦ let q = (==_iff id other).0 same in rw same (ground arith)
          | inr ne ↦ rw ne ((inv other).servers ∙ sym (rest (ground arith)))
        ];
        clients = rw kept (inv other).clients;
      }
  Step-Numbered {s} inv (guess id lt e) other =
      let (own, rest, kept) =
        subst (ClientDraws n m secret id other s.mem (s.client id)) e
          (client_step-draws n m secret id other s.mem (s.client id) (inv id).clients) in
      record {
        servers = rw kept (inv other).servers;
        clients = elim (Bool-cases (id == other)) [
          | inl same ↦ let q = (==_iff id other).0 same in rw same (ground arith)
          | inr ne ↦ rw ne ((inv other).clients ∙ sym (rest (ground arith)))
        ];
      }

  pub Reach-Numbered :
      {start : Shared} {s : System} → Reach n m secret start s → (id : ℕ) → Numbered s id
  Reach-Numbered (begin f) =
      λ id. record { servers = ground (arith, f.server_no); clients = ground (arith, f.client_no) }
  Reach-Numbered (later r st) = Step-Numbered (Reach-Numbered r) st
