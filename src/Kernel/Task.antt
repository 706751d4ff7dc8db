-- ===== src/Kernel/Task.antt =====
-- The part of `struct task_struct` that the two calls use, in a store of tasks by address, and
-- the walk over the process list (Assignment3/linux-2.6.38.1/include/linux/sched.h and
-- kernel/setproclimit.c).
pub mod Find
use cs.Prelude.{
  ℕ, ◌≡◌, Bool, true, false, Option, none, some, List, [], ◌∷◌, if◌then◌else◌, All, ◌==◌, ltb,
}
use cs.Prelude.Int.{ℤ, ◌==ℤ◌}

-- `children` holds the addresses that a walk over the list `children` meets, in order. The times
-- are in clock ticks (`cputime_t`).
pub record Task : Type 0 where
  pub pid : ℤ
  pub root_pid : ℤ
  pub time_limit : ℤ
  pub time_interval : ℤ
  pub utime : ℕ
  pub stime : ℕ
  pub children : List ℕ

-- `tasks` holds the addresses that `for_each_process` meets, in order; `current` is what
-- `get_current` returns.
pub record Kernel : Type 0 where
  pub task : ℕ → Task
  pub tasks : List ℕ
  pub current : ℕ

-- The error values that the calls return, negated, to user space.
pub data Errno : Type 0 where
  einval : Errno
  efault : Errno

pub data Status : Type 0 where
  success : Status
  failure : Errno → Status

-- The loop that looks for the first process with a given pid.
unfoldable pub find_task : ℤ → (ℕ → Task) → List ℕ → Option ℕ
find_task pid task [] = none
find_task pid task (a ∷ rest) = if (task a).pid ==ℤ pid then some a else find_task pid task rest

-- A store with one task written.
abbrev pub write_task : (ℕ → Task) → ℕ → Task → ℕ → Task
write_task task a t b = if b == a then t else task b
