-- ===== src/Guess/Tests.antt =====
-- Games that run to their end or get stuck, and the theorems of the game at them
-- (Assignment2/server.c, Assignment2/client.c).
mod Served
use cs.Prelude.{
  ℕ, zero, suc, ◌+◌, ◌≤◌, ◌<◌, ◌≡◌, ◌≢◌, ◌⊎◌, refl, ◌-◌, List, [], ◌∷◌, Option, some, none, inl,
  inr, arith, dec_lt, get_or,
}
use cs.Guess.Range.{low, high}
use cs.Guess.Memory.{Shared}
use cs.Guess.Server.{Server, server_step}
use cs.Guess.Client.{Client, client_step}
use cs.Guess.Invariant.Defs.{client_turn, server_turn}
use cs.Guess.System.{System, Step, serve, guess, Reach, begin, later, IsFresh}
use cs.Guess.Safety.{all_exited-right, take_turns}
use cs.Guess.Progress.{AllDone, deadlock_free}
use cs.Guess.Exact.{AreLetters}
use cs.Guess.Ends.Bound.{game_ends, steps}
use cs.Guess.Uncovered.{never_guessed, never_ends}

pub data Turn : Type 0 where
  server client : ℕ → Turn

pub record Run (n m : ℕ) (secret : ℕ → ℕ) (start : Shared) : Type 0 where
  pub last : System
  pub reach : Reach n m secret start last

attempt : {A : Type 0} (o : Option A) → (o ≡ none) ⊎ ((a : A) × (o ≡ some a))
attempt none = inl refl
attempt (some a) = inr (a, refl)

-- The thread makes its step, or the turn passes if it cannot.
turn :
    {n m : ℕ} {secret : ℕ → ℕ} {start : Shared} → Run n m secret start → Turn → Run n m secret start
unfolding server_step client_step low high dec_lt attempt
turn {n} {m} {secret} r (server id) = elim (dec_lt id m) [
  | no _ ↦ r
  | yes lt ↦ elim (attempt (server_step n m secret id (r.last.server id) r.last.mem)) [
    | inl e ↦ r
    | inr (p, e) ↦ record { last = _; reach = later r.reach (serve id {mem = p.0} {pc = p.1} lt e) }
  ]
]
turn {n} {m} {secret} r (client id) = elim (dec_lt id m) [
  | no _ ↦ r
  | yes lt ↦ elim (attempt (client_step n m id (r.last.client id) r.last.mem)) [
    | inl e ↦ r
    | inr (p, e) ↦ record { last = _; reach = later r.reach (guess id {mem = p.0} {pc = p.1} lt e) }
  ]
]

pub play :
    (n m : ℕ) (secret : ℕ → ℕ) {start : Shared}
    → IsFresh n m start
    → List Turn
    → Run n m secret start
unfolding turn
play n m secret f [] = record { last = _; reach = begin f }
play n m secret f (t ∷ l) = turn (play n m secret f l) t

abbrev pub fresh : Shared
fresh = record { shm1 = λ _. b'0'; shm2 = λ _. 0; sem = λ _. 0; server_no = 0; client_no = 0 }

abbrev fresh-IsFresh : (n m : ℕ) → IsFresh n m fresh
fresh-IsFresh n m = record {
  guesses = λ j h. refl;
  answers = λ j h. refl;
  semaphores = λ j h. refl;
  server_no = refl;
  client_no = refl;
}

abbrev pub round_robin : ℕ → List Turn
round_robin zero = []
round_robin (suc k) = server 0 ∷ client 0 ∷ server 1 ∷ client 1 ∷ round_robin k

abbrev secret : ℕ → ℕ
secret i = get_or (b'B' ∷ b'A' ∷ []) i 0

-- Two threads, two letters: all threads have ended.
abbrev finished : Run 2 2 secret fresh
finished = play 2 2 secret (fresh-IsFresh 2 2) (round_robin 40)

finished_memory :
    (finished.last.mem.shm1 0 ≡ b'B')
    × (finished.last.mem.shm1 1 ≡ b'A')
    × (finished.last.server 1 ≡ Server.exited)
unfolding play
finished_memory = (refl, refl, refl)

finished_clients : (id : ℕ) → id < 2 → finished.last.client id ≡ Client.exited
unfolding play
finished_clients zero lt = refl
finished_clients (suc zero) lt = refl
finished_clients (suc (suc id)) lt = absurd (omega arith)

all_exited-right_example : finished.last.mem.shm1 0 ≡ secret 0
all_exited-right_example =
    all_exited-right {n = 2} {m = 2} {secret = secret} {s = finished.last} (omega arith)
      finished.reach finished_clients 0 (omega arith)

secret_letters : AreLetters 2 secret
secret_letters zero lt = (omega arith, omega arith)
secret_letters (suc zero) lt = (omega arith, omega arith)
secret_letters (suc (suc j)) lt = absurd (omega arith)

game_ends_example : steps finished.reach ≤ 5152
game_ends_example =
    game_ends 2 2 secret secret_letters (omega arith) {s = finished.last} finished.reach

-- In the middle of the game.
abbrev halfway : Run 2 2 secret fresh
halfway = play 2 2 secret (fresh-IsFresh 2 2) (round_robin 9)

take_turns_example :
    client_turn (halfway.last.client 0)
      + halfway.last.mem.sem 0
      + server_turn (halfway.last.server 0)
      + halfway.last.mem.sem (0 + 2)
    ≡ 1
take_turns_example =
    take_turns {n = 2} {m = 2} {secret = secret} {s = halfway.last} (omega arith) halfway.reach 0
      (omega arith)

deadlock_free_example :
    AllDone 2 2 secret halfway.last ⊎ ((t : System) × Step 2 2 secret halfway.last t)
deadlock_free_example = deadlock_free 2 2 secret halfway.last (omega arith) halfway.reach

-- Three letters for two threads: the third one is left over.
abbrev left_over : Run 3 2 secret fresh
left_over = play 3 2 secret (fresh-IsFresh 3 2) (round_robin 40)

never_guessed_example : left_over.last.mem.shm1 2 ≡ b'0'
never_guessed_example =
    never_guessed 3 2 secret {s = left_over.last} left_over.reach 2 (omega arith) (omega arith)

-- One letter for two threads: the client waits for ever.
abbrev hung : Run 1 2 secret fresh
hung = play 1 2 secret (fresh-IsFresh 1 2) (round_robin 40)

hung_client : hung.last.client 0 ≡ Client.waiting
unfolding play
hung_client = refl

never_ends_example : hung.last.client 0 ≢ Client.exited
never_ends_example = never_ends 1 2 secret (omega arith) {s = hung.last} hung.reach 0 (omega arith)
