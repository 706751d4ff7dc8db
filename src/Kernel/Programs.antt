-- ===== src/Kernel/Programs.antt =====
-- The macros and the test programs (Assignment3/proclimit.h, Assignment3/test1.c and
-- Assignment3/test3.c).
pub mod Gate
pub mod Fails
mod Tests
use cs.Prelude.{ℕ, ◌-◌, ◌^◌, Bool, Option, none, some, List, [], ◌∷◌, if◌then◌else◌}
use cs.Prelude.Int.{ℤ, pos, negsuc, ltb_ℤ, minus_one}
use cs.Prelude.Text.{Text, codes}
use cs.Kernel.Task.{Kernel, Status, success, failure}
use cs.Kernel.GetLimit.{UserAccess, ProcLimit}

-- What a program can change: the kernel, and the memory of users.
pub record World (u : UserAccess) : Type 0 where
  pub kernel : Kernel
  pub memory : u.Memory

-- What a program shows. `message` is the text of `printf` or the prefix that `perror` is given.
pub data Event : Type 0 where
  message : Text → Event
  printed : ProcLimit → Event

pub record Ended (u : UserAccess) : Type 0 where
  pub status : ℕ
  pub events : List Event
  pub world : World u

-- `syscall` of the C library: a number and arguments. `none` stands for a run that does not
-- return.
abbrev pub Syscall : UserAccess → Type 0
Syscall u = ℕ → List ℤ → World u → Option (Status × World u)

module _ (u : UserAccess) (syscall : Syscall u) where
  unfoldable pub getproclimit : (pid : ℤ) (pl : ℕ) → World u → Option (Status × World u)
  getproclimit pid pl = syscall 342 (pid ∷ pos pl ∷ [])

  unfoldable pub setproclimit : (pid limit interval : ℤ) → World u → Option (Status × World u)
  setproclimit pid limit interval = syscall 342 (pid ∷ limit ∷ interval ∷ [])

  unfoldable pub show : Event → Option (Ended u) → Option (Ended u)
  show e none = none
  show e (some r) = some (record r { events = e ∷ r.events })

  unfoldable pub exit_with : ℕ → Text → World u → Option (Ended u)
  exit_with status text w = some (record { status = status; events = message text ∷ []; world = w })

  unfoldable pub return_0 : World u → Option (Ended u)
  return_0 w = some (record { status = 0; events = []; world = w })

  -- `if (setproclimit(...) != 0) { perror; exit(1); }` with the rest of the program.
  unfoldable pub set_step :
      (pid limit interval : ℤ) → (World u → Option (Ended u)) → World u → Option (Ended u)
  unfolding exit_with
  set_step pid limit interval next w = elim (setproclimit pid limit interval w) [
    | none ↦ none
    | some (success, w') ↦ next w'
    | some (failure e, w') ↦ exit_with 1 (codes "setproclimit") w'
  ]

  -- The same for `getproclimit`, and `printProcLimit` behind it.
  unfoldable pub get_step :
      (pid : ℤ) (pl : ℕ) → (World u → Option (Ended u)) → World u → Option (Ended u)
  unfolding exit_with show
  get_step pid pl next w = elim (getproclimit pid pl w) [
    | none ↦ none
    | some (success, w') ↦ show (printed (u.copy_from_user pl w'.memory).1) (next w')
    | some (failure e, w') ↦ exit_with 1 (codes "getproclimit") w'
  ]

  -- `counting` and `sleeping` are what the clock and other processes do during the loop that
  -- counts and during `sleep`; the first argument behind them is what `malloc` returns.
  unfoldable pub test1 :
      (counting sleeping : World u → World u) → Option ℕ → World u → Option (Ended u)
  unfolding set_step get_step exit_with return_0
  test1 counting sleeping none w = exit_with 1 (codes "Not enough memory.\n") w
  test1 counting sleeping (some pl) w =
      set_step minus_one (pos 10) (pos 11)
        (get_step minus_one pl (λ w1.
          get_step minus_one pl (λ w2. get_step minus_one pl return_0 (sleeping w2)) (counting w1)))
        w

  unfoldable pub test3_limit : (pid limit : ℤ) → ℕ → World u → Option (Ended u)
  unfolding set_step get_step exit_with return_0
  test3_limit pid limit pl w =
      if ltb_ℤ limit (pos 1000)
      then set_step pid limit (pos 1000) (get_step pid pl return_0) w
      else exit_with 0 (codes "limit must be less than 1000.\n") w

  -- `atoi` of the C library, what `malloc` returns, and `argv` without the program's name; without
  -- two arguments the program reads a NULL.
  unfoldable pub test3 : (Text → ℤ) → Option ℕ → List Text → World u → Option (Ended u)
  unfolding test3_limit exit_with
  test3 atoi none argv w = exit_with 1 (codes "Not enough memory.\n") w
  test3 atoi (some pl) (a ∷ b ∷ rest) w = test3_limit (atoi a) (atoi b) pl w
  test3 atoi (some pl) (a ∷ []) w = none
  test3 atoi (some pl) [] w = none
