-- ===== src/Guess/Uncovered.antt =====
-- What the division of the string among the threads leaves out: the letters behind the last part,
-- and every letter if there are more threads than letters (`low` and `high` of `threadManipul`,
-- Assignment2/server.c and Assignment2/client.c).
use mathlib.Core.Path.{subst}
use cs.Prelude.{
  ℕ, ◌+◌, ◌*◌, ◌/◌, ◌≤◌, ◌<◌, ◌≡◌, ◌≢◌, refl, ◌∙◌, Option, none, some, ◌==◌, ltb, arith, Bool-cases,
  inl, inr,
}
use cs.Guess.Range.{high, high-le_covered}
use cs.Guess.Memory.{Shared}
use cs.Guess.Server.{Server, checking, comparing, server_step}
use cs.Guess.Client.{Client, filling, sweeping, client_step}
use cs.Guess.System.{System, serve, guess, Reach, begin, later}

module _ (n m : ℕ) (secret : ℕ → ℕ) where
  module _ (id : ℕ) (lt : id < m) (mem : Shared) (j : ℕ) (beyond : m * (n / m) ≤ j) where
    abbrev Untouched : {P : Type 0} → Option (Shared × P) → Type 0
    Untouched none = Unit
    Untouched (some (mem', p)) = mem'.shm1 j ≡ mem.shm1 j

    server_step-Untouched : (s : Server) → Untouched (server_step n m secret id s mem)
    unfolding server_step
    server_step-Untouched Server.start = elim (Bool-cases (mem.server_no == id)) [
      | inl t ↦ rw t
      | inr f ↦ rw f tt
    ]
    server_step-Untouched (checking i) = elim (Bool-cases (ltb i (high n m id))) [
      | inl t ↦ elim (Bool-cases (mem.shm2 i == 0)) [ inl z ↦ rw (t, z) | inr z ↦ rw (t, z) ]
      | inr f ↦ rw f
    ]
    server_step-Untouched Server.waiting = elim (Bool-cases (mem.sem id == 0)) [
      | inl t ↦ rw t tt
      | inr f ↦ rw f
    ]
    server_step-Untouched (comparing i) = elim (Bool-cases (ltb i (high n m id))) [
      | inl t ↦ rw t
      | inr f ↦ rw f
    ]
    server_step-Untouched Server.posting = refl
    server_step-Untouched Server.exited = tt

    client_step-Untouched : (c : Client) → Untouched (client_step n m id c mem)
    unfolding client_step
    client_step-Untouched Client.start = elim (Bool-cases (mem.client_no == id)) [
      | inl t ↦ rw t
      | inr f ↦ rw f tt
    ]
    client_step-Untouched (filling i) = elim (Bool-cases (ltb i (high n m id))) [
      | inl t ↦ rw t (ground (arith, high-le_covered n m id lt))
      | inr f ↦ rw f
    ]
    client_step-Untouched Client.posting = refl
    client_step-Untouched Client.waiting = elim (Bool-cases (mem.sem (id + m) == 0)) [
      | inl t ↦ rw t tt
      | inr f ↦ rw f
    ]
    client_step-Untouched (sweeping k flag) = elim (Bool-cases (ltb k (high n m id))) [
      | inl t ↦ elim (Bool-cases (mem.shm2 k == 0)) [
        | inl z ↦ rw (t, z) (ground (arith, high-le_covered n m id lt))
        | inr z ↦ rw (t, z)
      ]
      | inr f ↦ elim (Bool-cases flag) [ inl t ↦ rw (f, t) | inr t ↦ rw (f, t) ]
    ]
    client_step-Untouched Client.exited = tt

  -- The letters from `m * (n / m)` on are never guessed: in every reachable state the client's
  -- string still holds '0' there.
  pub never_guessed :
      {start : Shared} {s : System}
      → Reach n m secret start s
      → (j : ℕ) → m * (n / m) ≤ j
      → j < n
      → s.mem.shm1 j ≡ b'0'
  never_guessed (begin f) j h b = f.guesses j b
  never_guessed (later {s} r (serve id lt e)) j h b =
      subst (Untouched id lt s.mem j h) e (server_step-Untouched id lt s.mem j h (s.server id))
      ∙ never_guessed r j h b
  never_guessed (later {s} r (guess id lt e)) j h b =
      subst (Untouched id lt s.mem j h) e (client_step-Untouched id lt s.mem j h (s.client id))
      ∙ never_guessed r j h b

module _ (n m : ℕ) (secret : ℕ → ℕ) (short : n / m ≡ 0) where
  empty : (id : ℕ) → high n m id ≡ 0
  unfolding high
  empty id = rw short (omega arith)

  -- A server thread with an empty part ends without an answer, and its client waits for one.
  abbrev ServerIdle : Server → Type 0
  ServerIdle Server.waiting = ⊥
  ServerIdle (comparing _) = ⊥
  ServerIdle Server.posting = ⊥
  ServerIdle _ = Unit

  abbrev ClientIdle : Client → Type 0
  ClientIdle (sweeping _ _) = ⊥
  ClientIdle Client.exited = ⊥
  ClientIdle _ = Unit

  record Idle (mem : Shared) (id : ℕ) (s : Server) (c : Client) : Type 0 where
    server_idle : ServerIdle s
    client_idle : ClientIdle c
    no_answer : mem.sem (id + m) ≡ 0

  module _ (id : ℕ) (lt : id < m) (mem : Shared) where
    -- A step keeps its thread idle and posts no answer to any thread.
    abbrev ServerKept : Option (Shared × Server) → Type 0
    ServerKept none = Unit
    ServerKept (some (mem', s)) = ServerIdle s × ((j : ℕ) → mem'.sem j ≡ mem.sem j)

    server_step-Idle : (s : Server) → ServerIdle s → ServerKept (server_step n m secret id s mem)
    unfolding server_step
    server_step-Idle Server.start i = elim (Bool-cases (mem.server_no == id)) [
      | inl t ↦ rw t (tt, λ j. refl)
      | inr f ↦ rw f tt
    ]
    server_step-Idle (checking i) h = elim (Bool-cases (ltb i (high n m id))) [
      | inl t ↦ absurd (ground (arith, empty id))
      | inr f ↦ rw f (tt, λ j. refl)
    ]
    server_step-Idle Server.waiting h = absurd h
    server_step-Idle (comparing i) h = absurd h
    server_step-Idle Server.posting h = absurd h
    server_step-Idle Server.exited h = tt

    abbrev ClientKept : Option (Shared × Client) → Type 0
    ClientKept none = Unit
    ClientKept (some (mem', c)) = ClientIdle c × ((j : ℕ) → mem'.sem (j + m) ≡ mem.sem (j + m))

    client_step-Idle :
        (c : Client) → ClientIdle c → mem.sem (id + m) ≡ 0 → ClientKept (client_step n m id c mem)
    unfolding client_step
    client_step-Idle Client.start h z = elim (Bool-cases (mem.client_no == id)) [
      | inl t ↦ rw t (tt, λ j. refl)
      | inr f ↦ rw f tt
    ]
    client_step-Idle (filling i) h z = elim (Bool-cases (ltb i (high n m id))) [
      | inl t ↦ rw t (tt, λ j. refl)
      | inr f ↦ rw f (tt, λ j. refl)
    ]
    client_step-Idle Client.posting h z = (tt, λ j. ground arith)
    client_step-Idle Client.waiting h z = rw z tt
    client_step-Idle (sweeping k flag) h z = absurd h
    client_step-Idle Client.exited h z = absurd h

  Reach-Idle :
      {start : Shared} {s : System}
      → Reach n m secret start s
      → (id : ℕ) → id < m
      → Idle s.mem id (s.server id) (s.client id)
  Reach-Idle (begin f) id lt = record {
    server_idle = tt;
    client_idle = tt;
    no_answer = f.semaphores (id + m) (omega arith);
  }
  Reach-Idle (later {s} r (serve other lt' e)) id lt =
      let old = Reach-Idle r id lt in
      let (i, same) =
        subst (ServerKept other lt' s.mem) e (
          server_step-Idle other lt' s.mem (s.server other) (Reach-Idle r other lt').server_idle) in
      record {
        server_idle = elim (Bool-cases (other == id)) [
          | inl t ↦ rw t i
          | inr f ↦ rw f old.server_idle
        ];
        client_idle = old.client_idle;
        no_answer = same (id + m) ∙ old.no_answer;
      }
  Reach-Idle (later {s} r (guess other lt' e)) id lt =
      let old = Reach-Idle r id lt in
      let mine = Reach-Idle r other lt' in
      let (i, same) =
        subst (ClientKept other lt' s.mem) e
          (client_step-Idle other lt' s.mem (s.client other) mine.client_idle mine.no_answer) in
      record {
        server_idle = old.server_idle;
        client_idle = elim (Bool-cases (other == id)) [
          | inl t ↦ rw t i
          | inr f ↦ rw f old.client_idle
        ];
        no_answer = same id ∙ old.no_answer;
      }

  -- With more threads than letters no client thread ever ends.
  pub never_ends :
      {start : Shared} {s : System}
      → Reach n m secret start s
      → (id : ℕ) → id < m
      → s.client id ≢ Client.exited
  never_ends {s} r id lt e = subst ClientIdle e (Reach-Idle r id lt).client_idle
