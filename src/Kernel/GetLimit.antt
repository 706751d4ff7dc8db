-- ===== src/Kernel/GetLimit.antt =====
-- `sys_getproclimit` (Assignment3/linux-2.6.38.1/kernel/getproclimit.c) and `struct proclimit`
-- (Assignment3/linux-2.6.38.1/include/proclimit.h). `unsigned long` has 32 bits on this kernel.
pub mod Spread
pub mod Report
use cs.Prelude.{
  ℕ, ◌+◌, ◌-◌, ◌%◌, ◌^◌, ◌≡◌, Bool, not, Option, none, some, List, [], ◌∷◌, if◌then◌else◌, ltb,
  ◌==◌,
}
use cs.Prelude.Int.{ℤ, ltb_ℤ, ◌==ℤ◌, minus_one}
use cs.Kernel.Task.{Task, Kernel, Errno, einval, efault, Status, success, failure, find_task}

abbrev pub u32 : ℕ → ℕ
u32 n = n % 2 ^ 32

pub record ProcLimit : Type 0 where
  pub root_pid : ℤ
  pub time_limit : ℤ
  pub time_interval : ℤ
  pub total_cpu_time : ℕ
  pub max_cpu_time : ℕ
  pub min_cpu_time : ℕ

-- The kernel's functions that the call uses: the conversion of ticks, the check of a pointer, and
-- the two copies, with the number of bytes not copied. A pointer is a number and 0 is NULL.
pub record UserAccess : Type 1 where
  pub Memory : Type 0
  pub cputime_to_usecs : ℕ → ℕ
  pub access_ok : ℕ → Memory → Bool
  pub copy_from_user : ℕ → Memory → ℕ × ProcLimit
  pub copy_to_user : ℕ → ProcLimit → Memory → ℕ × Memory

-- The running minimum, maximum and sum of the loop over the family.
pub record Totals : Type 0 where
  pub min : ℕ
  pub max : ℕ
  pub sum : ℕ

-- One process of the family, with time `i`.
unfoldable pub tally : ℕ → Totals → Totals
tally i t = record {
  min = if ltb t.min i then i else t.min;
  max = if ltb i t.max then i else t.max;
  sum = u32 (t.sum + i);
}

module _ (u : UserAccess) where
  open u use {Memory, cputime_to_usecs, access_ok, copy_from_user, copy_to_user}

  unfoldable pub cpu_time : Task → ℕ
  cpu_time t = u32 (cputime_to_usecs t.stime + cputime_to_usecs t.utime)

  -- `for_each_process` over the addresses that are left.
  unfoldable pub tally_family : ℤ → (ℕ → Task) → List ℕ → Totals → Totals
  unfolding tally cpu_time
  tally_family root task [] t = t
  tally_family root task (a ∷ rest) t =
      tally_family root task rest
        (if (task a).root_pid ==ℤ root then tally (cpu_time (task a)) t else t)

  -- The struct that the call fills in for the process `t`.
  unfoldable pub fill : Task → Kernel → ProcLimit
  unfolding tally_family
  fill t k =
      if t.root_pid ==ℤ minus_one
      then record {
        root_pid = t.root_pid;
        time_limit = t.time_limit;
        time_interval = t.time_interval;
        total_cpu_time = 2 ^ 32 - 1;
        max_cpu_time = 2 ^ 32 - 1;
        min_cpu_time = 2 ^ 32 - 1;
      }
      else (let start : Totals = record { min = cpu_time t; max = cpu_time t; sum = 0 } in
          let r = tally_family t.root_pid k.task k.tasks start in
          record {
            root_pid = t.root_pid;
            time_limit = t.time_limit;
            time_interval = t.time_interval;
            total_cpu_time = r.sum;
            max_cpu_time = r.max;
            min_cpu_time = r.min;
          })

  -- The test of what `copy_to_user` returned.
  unfoldable pub copied : ℕ × Memory → Status × Memory
  copied (missed, m) = if missed == 0 then (success, m) else (failure einval, m)

  -- From the check of the pointer to the copy back.
  unfoldable pub report : Task → ℕ → Kernel → Memory → Status × Memory
  unfolding fill copied
  report t pl k m =
      if not (access_ok pl m)
      then (failure efault, m)
      else if not ((copy_from_user pl m).0 == 0)
      then (failure einval, m)
      else copied (copy_to_user pl (fill t k) m)

  unfoldable pub sys_getproclimit : ℤ → ℕ → Kernel → Memory → Status × Memory
  unfolding report find_task
  sys_getproclimit pid pl k m =
      if pl == 0
      then (failure einval, m)
      else if pid ==ℤ minus_one
      then report (k.task k.current) pl k m
      else if ltb_ℤ minus_one pid
      then elim (find_task pid k.task k.tasks) [
        | none ↦ (failure einval, m)
        | some a ↦ report (k.task a) pl k m
      ]
      else if ltb_ℤ pid minus_one
      then (failure einval, m)
      else (success, m)
