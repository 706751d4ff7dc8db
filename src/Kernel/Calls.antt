-- ===== src/Kernel/Calls.antt =====
-- Calls of `sys_setproclimit` by several processes, one after the other
-- (Assignment3/linux-2.6.38.1/kernel/setproclimit.c).
pub mod Latest
pub mod Read
use cs.Prelude.{ℕ, Bool, false, Option, none, some, List, [], ◌∷◌, has, if◌then◌else◌}
use cs.Prelude.Int.{ℤ, ltb_ℤ, ◌==ℤ◌, minus_one}
use cs.Kernel.Task.{Task, Kernel, einval, Status, success, failure, find_task}
use cs.Kernel.SetLimit.{relabel, sys_setproclimit}
use cs.Kernel.SetLimit.Family.{family}
use cs.Kernel.SetLimit.Dump.{children_of}

-- A call by the process at the address `made_by`.
pub record SetCall : Type 0 where
  pub made_by : ℕ
  pub pid : ℤ
  pub limit : ℤ
  pub interval : ℤ

abbrev pub called_by : ℕ → Kernel → Kernel
called_by a k = record k { current = a }

abbrev pub and_status : Status → Option (List Status × Kernel) → Option (List Status × Kernel)
and_status s none = none
and_status s (some (l, k)) = some (s ∷ l, k)

-- The calls in order, with what they return.
unfoldable pub set_limits : ℕ → List SetCall → Kernel → Option (List Status × Kernel)
set_limits fuel [] k = some ([], k)
set_limits fuel (c ∷ l) k =
    elim (sys_setproclimit fuel c.pid c.limit c.interval (called_by c.made_by k)) [
      | none ↦ none
      | some (s, k') ↦ and_status s (set_limits fuel l k')
    ]

-- The process whose family a call is about; `none` where the call is refused.
abbrev pub target : Kernel → SetCall → Option ℕ
target k c =
    if ltb_ℤ c.interval c.limit
    then none
    else if c.pid ==ℤ minus_one
    then some c.made_by
    else if ltb_ℤ minus_one c.pid
    then find_task c.pid k.task k.tasks
    else none

abbrev pub status_of : Option ℕ → Status
status_of none = failure einval
status_of (some a) = success

abbrev pub statuses : Kernel → List SetCall → List Status
statuses k [] = []
statuses k (c ∷ l) = status_of (target k c) ∷ statuses k l

-- The three fields that a call writes.
pub record Label : Type 0 where
  pub root : ℤ
  pub limit : ℤ
  pub interval : ℤ

-- What a call about the family of the process at `a` gives the process at `b`.
abbrev pub given : ℕ → Kernel → ℕ → SetCall → Option ℕ → Option Label
given fuel k b c none = none
given fuel k b c (some a) =
    if has b (family (children_of k) fuel a)
    then some (record { root = (k.task a).pid; limit = c.limit; interval = c.interval })
    else none

abbrev pub or_before : Option Label → Option Label → Option Label
or_before (some x) before = some x
or_before none before = before

-- What the last call about a family of the process at `b` gives it.
abbrev pub last_label : ℕ → Kernel → ℕ → List SetCall → Option Label
last_label fuel k b [] = none
last_label fuel k b (c ∷ l) = or_before (last_label fuel k b l) (given fuel k b c (target k c))

abbrev pub labelled : Option Label → Task → Task
labelled none t = t
labelled (some x) t = relabel x.root x.limit x.interval t
