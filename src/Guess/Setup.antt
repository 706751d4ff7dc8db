-- ===== src/Guess/Setup.antt =====
-- What server and client do before their threads run, and after (Assignment2/server.c and
-- Assignment2/client.c): the calls of the system, whose results are parameters.
pub mod Segments
pub mod Server
pub mod Client
pub mod Filled
pub mod Created
pub mod Ready
pub mod Agreed
pub mod Rounds
mod Tests
use cs.Prelude.{ℕ, Bool, true, false, Option}
use cs.Prelude.Int.{ℤ}
use cs.Prelude.Text.{Text}

-- `stopped` is an `exit` with the text given to `perror`; `out_of_fuel` a loop that has not ended.
pub data Result {ℓ} (A : Type ℓ) : Type ℓ where
  ok : A → Result A
  stopped : (status : ℕ) (text : Text) → Result A
  out_of_fuel : Result A

infixl 5 ◌>>=◌ ◌>>◌
abbrev pub ◌>>=◌ {ℓ κ} : {A : Type ℓ} {B : Type κ} → Result A → (A → Result B) → Result B
ok a >>= f = f a
stopped n t >>= f = stopped n t
out_of_fuel >>= f = out_of_fuel

abbrev pub ◌>>◌ {ℓ} : {B : Type ℓ} → Result (Unit {0}) → Result B → Result B
m >> k = m >>= λ _. k

-- A call that ends the process where it fails.
abbrev pub must : Bool → Text → Result (Unit {0})
must true t = ok tt
must false t = stopped 1 t

-- How a segment is asked for: `IPC_CREAT`, with `IPC_EXCL`, or neither.
pub data Flags : Type 0 where
  create : Flags
  create_new : Flags
  existing : Flags

-- The calls of the system and of the C library. `rand` and `shmget` are numbered by the draws so
-- far, since what they return changes; `shmat` is NULL-like where it fails; `contents` is what an
-- attached segment holds at first.
pub record Os : Type 0 where
  pub rand : ℕ → ℕ
  pub ftok : ℕ → ℤ
  pub shmget : (draw : ℕ) (key : ℤ) (bytes : ℕ) → Flags → ℤ
  pub shmat : ℤ → Option ℕ
  pub contents : ℕ → ℕ → ℕ
  pub sem_init : ℕ → ℤ
  pub sem_size : ℕ
