-- ===== src/Kernel/SetLimit.antt =====
-- `sys_setproclimit` (Assignment3/linux-2.6.38.1/kernel/setproclimit.c).
pub mod Dump
pub mod Effect
pub mod Family
use cs.Prelude.{ℕ, zero, suc, Option, none, some, List, [], ◌∷◌, if◌then◌else◌}
use cs.Prelude.Int.{ℤ, ltb_ℤ, ◌==ℤ◌, minus_one}
use cs.Kernel.Task.{Task, Kernel, Errno, einval, Status, success, failure, find_task, write_task}

-- The three fields that the call writes.
abbrev pub relabel : (root limit interval : ℤ) → Task → Task
relabel root limit interval t = record t {
  root_pid = root;
  time_limit = limit;
  time_interval = interval;
}

-- The loop over the list of children, with the recursive call as an argument. `none` means that
-- the fuel of the recursion ran out.
unfoldable pub for_each_child : (ℕ → Kernel → Option Kernel) → List ℕ → Kernel → Option Kernel
for_each_child visit [] k = some k
for_each_child visit (c ∷ rest) k = elim (visit c k) [
  | none ↦ none
  | some k' ↦ for_each_child visit rest k'
]

-- The recursion goes down the tree of children; `fuel` bounds its depth.
unfoldable pub setproclimit_dump : ℕ → (root limit interval : ℤ) → ℕ → Kernel → Option Kernel
setproclimit_dump zero root limit interval cur k = none
setproclimit_dump (suc fuel) root limit interval cur k =
    for_each_child (setproclimit_dump fuel root limit interval) (k.task cur).children
      (record k { task = write_task k.task cur (relabel root limit interval (k.task cur)) })

unfoldable pub finish : Option Kernel → Option (Status × Kernel)
finish none = none
finish (some k) = some (success, k)

-- Relabels the process at address `a`, with its own pid as the root's.
unfoldable pub make_family : ℕ → (limit interval : ℤ) → ℕ → Kernel → Option (Status × Kernel)
unfolding finish
make_family fuel limit interval a k =
    finish (setproclimit_dump fuel (k.task a).pid limit interval a k)

unfoldable pub sys_setproclimit : ℕ → (pid limit interval : ℤ) → Kernel → Option (Status × Kernel)
unfolding make_family find_task
sys_setproclimit fuel pid limit interval k =
    if ltb_ℤ interval limit
    then some (failure einval, k)
    else if pid ==ℤ minus_one
    then make_family fuel limit interval k.current k
    else if ltb_ℤ minus_one pid
    then elim (find_task pid k.task k.tasks) [
      | none ↦ some (failure einval, k)
      | some a ↦ make_family fuel limit interval a k
    ]
    else if ltb_ℤ pid minus_one
    then some (failure einval, k)
    else some (success, k)
