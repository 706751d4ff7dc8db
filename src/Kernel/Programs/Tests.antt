-- ===== src/Kernel/Programs/Tests.antt =====
-- The test programs on a system with one readable struct (Assignment3/test1.c and
-- Assignment3/test3.c).
use cs.Prelude.{
  ℕ, arith, ◌<◌, ◌≤◌, ◌≡◌, ◌≢◌, refl, true, Option, none, some, List, [], ◌∷◌, get_elem?,
  if◌then◌else◌, ◌==◌, ◌⊎◌, inr,
}
use cs.Prelude.Int.{ℤ, pos, minus_one}
use cs.Prelude.Text.{Text, codes, text_eq}
use cs.Kernel.Task.{Task, Status}
use cs.Kernel.GetLimit.{UserAccess, ProcLimit}
use cs.Kernel.Table.{sys_call_table}
use cs.Kernel.Numbers.Format.{CallNumber, nr}
use cs.Kernel.Syscalls.{handles, ni_syscall}
use cs.Kernel.Syscalls.Entries.{numbers_handled}
use cs.Kernel.Syscalls.Named.{table_named}
use cs.Kernel.Numbers.{numbers, nr_syscalls}
use cs.Kernel.Programs.{World, message, Ended, Syscall, test1, test3}
use cs.Kernel.Programs.Gate.{Dispatches, run_set, run_get}
use cs.Kernel.Programs.Fails.{test1_fails, test3_fails, test3-kernel}

abbrev task : Task
task = record {
  pid = pos 7;
  root_pid = minus_one;
  time_limit = minus_one;
  time_interval = minus_one;
  utime = 3;
  stime = 1;
  children = [];
}

abbrev blank : ProcLimit
blank = record {
  root_pid = pos 0;
  time_limit = pos 0;
  time_interval = pos 0;
  total_cpu_time = 0;
  max_cpu_time = 0;
  min_cpu_time = 0;
}

-- One struct at address 4096; a copy from elsewhere misses all its bytes.
abbrev user : UserAccess
user = record {
  Memory = ProcLimit;
  cputime_to_usecs = λ t. t;
  access_ok = λ a m. true;
  copy_from_user = λ a m. if a == 4096 then (0, m) else (36, m);
  copy_to_user = λ a p m. if a == 4096 then (0, p) else (36, m);
}

abbrev world : World user
world = record { kernel = record { task = λ a. task; tasks = 1 ∷ []; current = 1 }; memory = blank }

-- A call with three arguments or two, as the table has it.
abbrev run_entry : Option Text → List ℤ → World user → Option (Status × World user)
run_entry none args w = none
run_entry (some e) [] w = none
run_entry (some e) (a ∷ []) w = none
run_entry (some e) (a ∷ b ∷ []) w =
    if text_eq e (codes "sys_getproclimit") then run_get user a b w else none
run_entry (some e) (a ∷ b ∷ c ∷ rest) w =
    if text_eq e (codes "sys_setproclimit")
    then run_set user 5 a b c w
    else if text_eq e (codes "sys_getproclimit")
    then run_get user a b w
    else none

abbrev gate : Syscall user
gate n args w = run_entry (get_elem? sys_call_table n) args w

gate-gets :
    (e : Option Text) (a b : ℤ) (rest : List ℤ) (w : World user)
    → e ≡ some (codes "sys_getproclimit")
    → run_entry e (a ∷ b ∷ rest) w ≡ run_get user a b w
gate-gets e a b [] w h = rw h
gate-gets e a b (c ∷ rest) w h = rw h

gate-Dispatches : Dispatches user 5 gate
gate-Dispatches = record {
  sets = λ n pid limit interval rest w h. rw h;
  gets = λ n pid pl rest w h. gate-gets (get_elem? sys_call_table n) pid pl rest w h;
}

test1_run :
    test1 user gate (λ w. w) (λ w. w) (some 4096) world
    ≡ some (record { status = 1; events = message (codes "setproclimit") ∷ []; world = world })
test1_run =
    test1_fails user 5 gate gate-Dispatches (λ w. w) (λ w. w) 4096 world
      (inr (λ e. omega (arith, e)))

-- `test3 7 1000`.
abbrev atoi : Text → ℤ
atoi t = if text_eq t (codes "7") then pos 7 else pos 1000

test3_run :
    test3 user gate atoi (some 4096) (codes "7" ∷ codes "1000" ∷ []) world
    ≡ some (record {
      status = 0;
      events = message (codes "limit must be less than 1000.\n") ∷ [];
      world = world;
    })
test3_run =
    test3_fails user 5 gate gate-Dispatches atoi 4096 (codes "7") (codes "1000") world
      (inr (λ e. omega (arith, e)))

test3-kernel_example :
    (r : Ended user) × (test3 user gate atoi (some 4096) (codes "7" ∷ codes "7" ∷ []) world
      ≡ some r)
    × (r.world.kernel ≡ world.kernel)
test3-kernel_example =
    test3-kernel user 5 gate gate-Dispatches atoi (some 4096) (codes "7") (codes "7") world

line_4 : get_elem? numbers 4 ≡ some (nr "write" 4)
unfolding numbers
line_4 = refl

numbers_handled_example :
    (e : Text) × (get_elem? sys_call_table 4 ≡ some e) × (handles (codes "write") e ≡ true)
numbers_handled_example = numbers_handled 4 (nr "write" 4) line_4

table_named_example :
    ((◌<◌ 222 nr_syscalls)
      × ((e : Text) × (get_elem? sys_call_table 222 ≡ some e)
          × (((i : ℕ) × (l : CallNumber) × (get_elem? numbers i ≡ some l)
                × (l.number ≡ 222)
                × (handles l.call e ≡ true))
              ⊎ ((e ≡ ni_syscall)
                  × ((i : ℕ) (l : CallNumber) → get_elem? numbers i ≡ some l → l.number ≢ 222)))))
    ⊎ ((nr_syscalls ≤ 222) × (get_elem? sys_call_table 222 ≡ none))
table_named_example = table_named 222
