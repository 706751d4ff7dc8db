-- ===== src/Kernel/Lifetime.antt =====
-- The limits of the processes from the start of the system on: the first process (`INIT_TASK` of
-- Assignment3/linux-2.6.38.1/include/linux/init_task.h), `fork`, and calls of `sys_setproclimit`,
-- each of them made as a whole.
pub mod Touched
pub mod Reachable
mod Tests
use cs.Prelude.{ℕ, ◌≡◌, ◌≢◌, ◌⊎◌, true, some, [], has, ◌==◌, if◌then◌else◌}
use cs.Prelude.Int.{ℤ, pos, minus_one, ◌<ℤ◌}
use cs.Kernel.Task.{Task, Kernel, Status}
use cs.Kernel.SetLimit.{sys_setproclimit}

-- The fields of the first process; a field that the macro does not name is 0.
abbrev pub init_task : Task
init_task = record {
  pid = pos 0;
  root_pid = minus_one;
  time_limit = minus_one;
  time_interval = minus_one;
  utime = 0;
  stime = 0;
  children = [];
}

-- At the start the first process stands at address 0 and runs. `for_each_process` starts behind
-- it.
abbrev pub boot : (ℕ → Task) → Kernel
boot junk = record { task = λ a. if a == 0 then init_task else junk a; tasks = []; current = 0 }

abbrev pub Live : Kernel → ℕ → Type 0
Live k a = (a ≡ 0) ⊎ (has a k.tasks ≡ true)

abbrev pub SameLimits : Task → Task → Type 0
SameLimits t t' =
    (t'.root_pid ≡ t.root_pid)
    × (t'.time_limit ≡ t.time_limit)
    × (t'.time_interval ≡ t.time_interval)

-- What the two calls rely on of the rest of the kernel: `fork` gives the child a copy of the
-- parent's `task_struct`, with a new pid; all else leaves the three fields and the pid alone.
pub record Forked (k : Kernel) (child : ℕ) (k' : Kernel) : Type 0 where
  pub copied : SameLimits (k.task k.current) (k'.task child)
  pub numbered : minus_one <ℤ (k'.task child).pid
  pub others : (b : ℕ) → Live k' b → b ≢ child → Live k b × SameLimits (k.task b) (k'.task b)
  pub pids : (b : ℕ) → Live k' b → b ≢ child → (k'.task b).pid ≡ (k.task b).pid
  pub runs : Live k' k'.current

pub record Runs (k k' : Kernel) : Type 0 where
  pub others : (b : ℕ) → Live k' b → Live k b × SameLimits (k.task b) (k'.task b)
  pub pids : (b : ℕ) → Live k' b → (k'.task b).pid ≡ (k.task b).pid
  pub runs : Live k' k'.current

-- One step is a whole call of `sys_setproclimit`, a `fork`, or anything else that leaves the
-- three fields alone. The call takes no lock, and the kernel runs on several processors and is
-- preemptible; what another process sees between the writes of one call is not modelled.
pub data Step (fuel : ℕ) (k : Kernel) : Kernel → Type 0 where
  limits :
      (pid limit interval : ℤ) {status : Status} {k' : Kernel}
      → sys_setproclimit fuel pid limit interval k ≡ some (status, k')
      → Step fuel k k'
  forks : (child : ℕ) {k' : Kernel} → Forked k child k' → Step fuel k k'
  goes_on : {k' : Kernel} → Runs k k' → Step fuel k k'

pub data Reach (fuel : ℕ) (junk : ℕ → Task) : Kernel → Type 0 where
  begin : Reach fuel junk (boot junk)
  later : {k k' : Kernel} → Reach fuel junk k → Step fuel k k' → Reach fuel junk k'
