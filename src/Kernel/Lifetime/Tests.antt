-- ===== src/Kernel/Lifetime/Tests.antt =====
-- A system that forks a process and then limits itself, and a report on it.
use cs.Prelude.{ℕ, ◌+◌, true, [], ◌∷◌, if◌then◌else◌, ◌==◌}
use cs.Prelude.Int.{pos}
use cs.Kernel.Task.{Task, Kernel, write_task}
use cs.Kernel.SetLimit.{relabel}
use cs.Kernel.GetLimit.{ProcLimit, UserAccess}
use cs.Kernel.Lifetime.{init_task}

abbrev junk : ℕ → Task
junk a = record init_task { pid = pos 99 }

abbrev forked : Kernel
forked = record {
  task = λ a.
      if a == 0 then record init_task { children = 1 ∷ [] } else record init_task { pid = pos 1 };
  tasks = 1 ∷ [];
  current = 0;
}

abbrev first_written : ℕ → Task
first_written = write_task forked.task 0 (relabel (pos 0) (pos 10) (pos 11) (forked.task 0))

abbrev limited : Kernel
limited = record forked {
  task = write_task first_written 1 (relabel (pos 0) (pos 10) (pos 11) (first_written 1));
}

-- User space with one struct; a call of it misses no byte.
abbrev user : UserAccess
user = record {
  Memory = ProcLimit;
  cputime_to_usecs = λ t. t + t;
  access_ok = λ pl m. true;
  copy_from_user = λ pl m. (0, m);
  copy_to_user = λ pl p m. (0, p);
}

abbrev blank : ProcLimit
blank = record {
  root_pid = pos 0;
  time_limit = pos 0;
  time_interval = pos 0;
  total_cpu_time = 0;
  max_cpu_time = 0;
  min_cpu_time = 0;
}

abbrev shown : ProcLimit
shown = record blank { time_limit = pos 10; time_interval = pos 11 }
