-- ===== src/Kernel/Lifetime/Reachable.antt =====
-- Every live process has consistent limits at any time, and `sys_getproclimit` reports them.
use cs.Prelude.{ℕ, ◌-◌, ◌^◌, ◌≡◌, ◌⊎◌}
use cs.Prelude.Int.{ℤ, ◌<ℤ◌, minus_one}
use cs.Kernel.Task.{Task, Kernel}
use cs.Kernel.GetLimit.{ProcLimit}
use cs.Kernel.Lifetime.{Live}
use cs.Kernel.Lifetime.Touched.{Effect}

-- The three fields: unset, or those of a family with a limit within its interval.
abbrev pub Consistent : (root limit interval : ℤ) → Type 0
Consistent root limit interval =
    ((root ≡ minus_one) × (limit ≡ minus_one) × (interval ≡ minus_one))
    ⊎ ((minus_one <ℤ root) × ¬ (interval <ℤ limit))

abbrev pub ConsistentTask : Task → Type 0
ConsistentTask t = Consistent t.root_pid t.time_limit t.time_interval

record Inv (k : Kernel) : Type 0 where
  numbered : (a : ℕ) → Live k a → minus_one <ℤ (k.task a).pid
  consistent : (a : ℕ) → Live k a → ConsistentTask (k.task a)
  runs : Live k k.current

-- A report on a process without limits, or on one of a family.
pub data Report (p : ProcLimit) : Type 0 where
  unlimited :
      p.root_pid ≡ minus_one
      → p.time_limit ≡ minus_one
      → p.time_interval ≡ minus_one
      → p.total_cpu_time ≡ 2 ^ 32 - 1
      → p.max_cpu_time ≡ 2 ^ 32 - 1
      → p.min_cpu_time ≡ 2 ^ 32 - 1
      → Report p
  limited : minus_one <ℤ p.root_pid → ¬ (p.time_interval <ℤ p.time_limit) → Report p
