-- ===== src/Guess/Ends.antt =====
-- How long a game can last: a number for each state that falls with every step
-- (Assignment2/server.c and Assignment2/client.c).
pub mod Deficit
pub mod Serve
pub mod Guesses
pub mod Total
pub mod Bound
use cs.Prelude.{
  ℕ, zero, suc, ◌+◌, ◌-◌, ◌*◌, ◌/◌, ◌≡◌, arith, Bool, true, false, if◌then◌else◌, ◌==◌,
}
use cs.Guess.Range.{low, high}
use cs.Guess.Memory.{Shared}
use cs.Guess.Server.{Server, checking, comparing}
use cs.Guess.Client.{Client, filling, sweeping}
use cs.Guess.System.{System}

-- How far the guesses from `i` on are below their letters.
pub deficit : (secret shm1 : ℕ → ℕ) (i len : ℕ) → ℕ
deficit secret shm1 i zero = 0
deficit secret shm1 i (suc len) = (secret i - shm1 i) + deficit secret shm1 (i + 1) len

-- The steps of a round of a pair with `len` letters, from the client's `sem_post` on.
abbrev pub round_cost : ℕ → ℕ
round_cost len = 3 * len + 7

-- The steps that are left of the round, as the place of each thread shows them.
abbrev pub client_cost : (len hi : ℕ) → Client → ℕ
client_cost len hi Client.start = len + 2 + round_cost len
client_cost len hi (filling i) = (hi - i) + 1 + round_cost len
client_cost len hi Client.posting = round_cost len
client_cost len hi Client.waiting = 0
client_cost len hi (sweeping k flag) = (hi - k) + 1 + (if flag then round_cost len else 0)
client_cost len hi Client.exited = 0

abbrev pub server_cost : (len hi : ℕ) → Server → ℕ
server_cost len hi Server.start = len + 2
server_cost len hi (checking i) = (hi - i) + 1
server_cost len hi Server.waiting = 0
server_cost len hi (comparing i) = (hi - i) + 1 + (2 * len + 4)
server_cost len hi Server.posting = 2 * len + 4
server_cost len hi Server.exited = 0

-- A semaphore that is up stands for the steps of the thread that it lets go.
abbrev pub token : (sem cost : ℕ) → ℕ
token sem cost = if sem == 0 then 0 else cost

-- Before its letters are written the client has not guessed.
abbrev pub shown : Client → (ℕ → ℕ) → ℕ → ℕ
shown Client.start shm1 = λ _. 0
shown (filling i) shm1 = λ _. 0
shown _ shm1 = shm1

-- What is left of the round, and a round for each step of a letter.
pub round_left : (n m id : ℕ) → (ℕ → ℕ) → Server → Client → ℕ
round_left n m id sem s c =
    client_cost (n / m) (high n m id) c
    + token (sem id) (3 * (n / m) + 6)
    + server_cost (n / m) (high n m id) s
    + token (sem (id + m)) (n / m + 2)

pub rounds_left : (n m : ℕ) (secret : ℕ → ℕ) (id : ℕ) → (ℕ → ℕ) → Client → ℕ
rounds_left n m secret id shm1 c =
    round_cost (n / m) * deficit secret (shown c shm1) (low n m id) (n / m)

pub potential : (n m : ℕ) (secret : ℕ → ℕ) (id : ℕ) → Shared → Server → Client → ℕ
potential n m secret id mem s c =
    rounds_left n m secret id mem.shm1 c + round_left n m id mem.sem s c

pub sum_below : (ℕ → ℕ) → ℕ → ℕ
sum_below f zero = 0
sum_below f (suc k) = f k + sum_below f k

-- What is left of the game: the sum over its pairs.
pub total : (n m : ℕ) (secret : ℕ → ℕ) → System → ℕ
total n m secret s = sum_below (λ id. potential n m secret id s.mem (s.server id) (s.client id)) m

pub high-eq-add : (n m id : ℕ) → high n m id ≡ low n m id + n / m
unfolding high low
high-eq-add n m id = omega arith
