-- ===== src/Kernel/Tests.antt =====
-- A small system of four processes, and the theorems of the two calls at it
-- (Assignment3/linux-2.6.38.1/kernel).
use cs.Prelude.{ℕ, ◌+◌, ◌≡◌, refl, true, List, [], ◌∷◌, some, arith, if◌then◌else◌, ◌==◌}
use cs.Prelude.Int.{ℤ, pos, minus_one}
use cs.Kernel.Task.{Task, Kernel, success, failure, Errno, einval}
use cs.Kernel.Task.Find.{UniquePids}
use cs.Kernel.SetLimit.{sys_setproclimit, relabel}
use cs.Kernel.SetLimit.Family.{Descends}
use cs.Kernel.SetLimit.Dump.{children_of}
use cs.Kernel.SetLimit.Effect.{
  Names, caller, Relabelled, Invalid, setproclimit-Relabelled, setproclimit-refuses,
}
use cs.Kernel.GetLimit.{ProcLimit, UserAccess, sys_getproclimit, fill}
use cs.Kernel.GetLimit.Report.{Outcome, getproclimit-Outcome, Swapped, fill-Swapped}
use cs.Kernel.RoundTrip.{Limits, set-get}
use mathlib.Core.Option.{some-injective}
use mathlib.Core.Path.{subst}
use cs.Prelude.{none, All}
use cs.Prelude.Int.{◌<ℤ◌}
use cs.Kernel.Task.{find_task}
use cs.Kernel.Task.Find.{Listed}
use cs.Kernel.SetLimit.Family.{Height, family, families}
use cs.Kernel.Calls.{SetCall, set_limits, statuses, last_label, labelled}
use cs.Kernel.Calls.Latest.{Shallow}
use cs.Kernel.Calls.Read.{set_limits-get}

abbrev process : (pid root : ℤ) (time : ℕ) → List ℕ → Task
process pid root time children = record {
  pid = pid;
  root_pid = root;
  time_limit = minus_one;
  time_interval = minus_one;
  utime = time;
  stime = 1;
  children = children;
}

-- The process at 1 has the children at 2 and 3, and is the caller; the one at 4 stands alone.
abbrev store : ℕ → Task
store a =
    if a == 1
    then process (pos 100) minus_one 4 (2 ∷ 3 ∷ [])
    else if a == 2
    then process (pos 101) minus_one 9 []
    else if a == 3
    then process (pos 102) minus_one 2 []
    else process (pos 103) minus_one 0 []

abbrev system : Kernel
system = record { task = store; tasks = 1 ∷ 2 ∷ 3 ∷ 4 ∷ []; current = 1 }

-- User space with one struct; a call of it misses no byte.
abbrev user : UserAccess
user = record {
  Memory = ProcLimit;
  cputime_to_usecs = λ t. t + t;
  access_ok = λ pl m. true;
  copy_from_user = λ pl m. (0, m);
  copy_to_user = λ pl p m. (0, p);
}

abbrev blank : ProcLimit
blank = record {
  root_pid = pos 0;
  time_limit = pos 0;
  time_interval = pos 0;
  total_cpu_time = 0;
  max_cpu_time = 0;
  min_cpu_time = 0;
}

system-UniquePids : UniquePids system.task system.tasks
system-UniquePids a b ha hb e = ground arith

setproclimit-Relabelled_example :
    (k' : Kernel) × (sys_setproclimit 5 minus_one (pos 10) (pos 11) system ≡ some (success, k'))
    × Relabelled system 1 (pos 10) (pos 11) k'
setproclimit-Relabelled_example =
    setproclimit-Relabelled 5 system minus_one (pos 10) (pos 11) 1 (caller refl refl)
      system-UniquePids (tt, (tt, tt)) (λ h. omega arith)

setproclimit-refuses_example :
    (Invalid system minus_one (pos 12) (pos 11)
      → sys_setproclimit 5 minus_one (pos 12) (pos 11) system ≡ some (failure einval, system))
    × ((e : Errno) (k' : Kernel)
        → sys_setproclimit 5 minus_one (pos 12) (pos 11) system ≡ some (failure e, k')
        → Invalid system minus_one (pos 12) (pos 11))
setproclimit-refuses_example = setproclimit-refuses 5 system minus_one (pos 12) (pos 11)

getproclimit-Outcome_example :
    Outcome user system (pos 101) 8 blank (sys_getproclimit user (pos 101) 8 system blank)
getproclimit-Outcome_example = getproclimit-Outcome user system (pos 101) 8 blank

-- The system after the caller has set a limit for its family.
abbrev limited : Kernel
limited = record {
  task = λ a. if a == 4 then store 4 else relabel (pos 100) (pos 10) (pos 11) (store a);
  tasks = system.tasks;
  current = 1;
}

fill-Swapped_example :
    Swapped user limited
      (pos 100)
      (fill user (relabel (pos 100) (pos 10) (pos 11) (store 2)) limited)
fill-Swapped_example = fill-Swapped user limited 2 refl (λ e. cc)

-- The shortest time of the family is 6 and the longest is 20; the fields have them the other way
-- round.
swapped_fields :
    ((fill user (limited.task 2) limited).max_cpu_time ≡ 6)
    × ((fill user (limited.task 2) limited).min_cpu_time ≡ 20)
unfolding fill
swapped_fields = (refl, refl)

set-get_example :
    (k' : Kernel) × (sys_setproclimit 5 minus_one (pos 10) (pos 11) system ≡ some (success, k'))
    × ((b : ℕ) (pid_b : ℤ)
        → Descends (children_of system) 1 b
        → Names system pid_b b
        → (m' : ProcLimit) × (sys_getproclimit user pid_b 8 k' blank ≡ (success, m'))
          × Limits user 8 m' (pos 100) (pos 10) (pos 11))
set-get_example =
    set-get user (λ pl p m e. refl) {pl = 8} {m = blank}
      (record { ne_null = omega arith; ok = refl; full = refl; back = λ p. refl }) 5 system
      minus_one (pos 10) (pos 11) 1 (caller refl refl) system-UniquePids (tt, (tt, tt))
      (λ h. omega arith)

abbrev call : (made_by : ℕ) (pid limit interval : ℤ) → SetCall
call made_by pid limit interval = record {
  made_by = made_by;
  pid = pid;
  limit = limit;
  interval = interval;
}

-- The process at 1 limits its family, the one at 4 that of the process at 2, and two calls fail.
abbrev calls : List SetCall
calls =
    call 1 minus_one (pos 10) (pos 11)
    ∷ call 4 (pos 101) (pos 3) (pos 5)
    ∷ call 2 minus_one (pos 9) (pos 8)
    ∷ call 3 (pos 999) (pos 1) (pos 2)
    ∷ []

calls-Shallow : All (Shallow 5 system) calls
unfolding find_task
calls-Shallow = (
  λ a e. subst (Height (children_of system) 5) (some-injective 1 a e) (tt, (tt, tt)),
  (
    λ a e. subst (Height (children_of system) 5) (some-injective 2 a e) tt,
    (λ a e. absurd (cc e), (λ a e. absurd (cc e), tt)),
  ),
)

set_limits-get_example :
    (k' : Kernel) × (set_limits 5 calls system ≡ some (statuses system calls, k'))
    × ((b : ℕ) (pid : ℤ)
        → minus_one <ℤ pid
        → Listed pid system.task system.tasks b
        → let t = labelled (last_label 5 system b calls) (system.task b) in
          (m' : ProcLimit) × (sys_getproclimit user pid 8 k' blank ≡ (success, m'))
          × Limits user 8 m' t.root_pid t.time_limit t.time_interval)
set_limits-get_example =
    set_limits-get user (λ pl p m e. refl) {pl = 8} {m = blank}
      (record { ne_null = omega arith; ok = refl; full = refl; back = λ p. refl }) 5 system calls
      system-UniquePids calls-Shallow

-- The process at 2 has left the family of its parent, and the one at 3 is still in it.
last_labels :
    (statuses system calls ≡ success ∷ success ∷ failure einval ∷ failure einval ∷ [])
    × (last_label 5 system 2 calls
        ≡ some (record { root = pos 101; limit = pos 3; interval = pos 5 }))
    × (last_label 5 system 3 calls
        ≡ some (record { root = pos 100; limit = pos 10; interval = pos 11 }))
    × (last_label 5 system 4 calls ≡ none)
unfolding find_task family families
last_labels = (refl, refl, refl, refl)
