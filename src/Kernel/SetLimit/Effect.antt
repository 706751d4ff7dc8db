-- ===== src/Kernel/SetLimit/Effect.antt =====
-- The effect of `sys_setproclimit` as a whole.
use cs.Prelude.{ℕ, ◌≡◌, ◌≢◌, refl, ap, false, inl, inr, some, has, arith, Bool-cases}
use cs.Prelude.Int.{ℤ, ltb_ℤ, ◌<ℤ◌, ◌==ℤ◌, minus_one}
use cs.Kernel.Task.{Kernel, success, failure, Errno, einval}
use cs.Kernel.Task.Find.{Absent, Listed, UniquePids, find_task-cases, find_task-Listed}
use cs.Kernel.SetLimit.{relabel, sys_setproclimit, make_family, finish}
use cs.Kernel.SetLimit.Family.{Height, Descends, family, family-Descends, Descends-family}
use cs.Kernel.SetLimit.Dump.{children_of, mark, setproclimit_dump-mark}

-- The process that a pid argument names: the caller, or the listed process with that pid.
pub data Names (k : Kernel) (pid : ℤ) (a : ℕ) : Type 0 where
  caller : pid ≡ minus_one → a ≡ k.current → Names k pid a
  listed : minus_one <ℤ pid → Listed pid k.task k.tasks a → Names k pid a

-- What the call leaves: the family of `a` has the new fields, with the pid of `a` as root; every
-- other task, the list and the caller are as before.
pub record Relabelled (k : Kernel) (a : ℕ) (limit interval : ℤ) (k' : Kernel) : Type 0 where
  pub inside :
      (b : ℕ)
      → Descends (children_of k) a b
      → k'.task b ≡ relabel (k.task a).pid limit interval (k.task b)
  pub outside : (b : ℕ) → ¬ Descends (children_of k) a b → k'.task b ≡ k.task b
  pub same_pids : (b : ℕ) → (k'.task b).pid ≡ (k.task b).pid
  pub same_list : k'.tasks ≡ k.tasks
  pub same_caller : k'.current ≡ k.current

-- The arguments that the call refuses.
pub data Invalid (k : Kernel) (pid limit interval : ℤ) : Type 0 where
  over : interval <ℤ limit → Invalid k pid limit interval
  below : pid <ℤ minus_one → Invalid k pid limit interval
  absent : minus_one <ℤ pid → Absent pid k.task k.tasks → Invalid k pid limit interval

module _ (fuel : ℕ) (k : Kernel) (pid limit interval : ℤ) where
  make_family-Relabelled :
      (a : ℕ)
      → Height (children_of k) fuel a
      → (k' : Kernel) × (make_family fuel limit interval a k ≡ some (success, k'))
        × Relabelled k a limit interval k'
  unfolding make_family
  make_family-Relabelled a h = (
    mark (k.task a).pid limit interval (family (children_of k) fuel a) k,
    ap finish
        (setproclimit_dump-mark (k.task a).pid limit interval (children_of k) fuel a k refl h),
    unfold mark in
        record {
          inside = λ b d. rw (Descends-family (children_of k) fuel a h d);
          outside = λ b d. ground (arith, out b d);
          same_pids = λ b. ground arith;
          same_list = refl;
          same_caller = refl;
        },
  )
    where
      out : (b : ℕ) → ¬ Descends (children_of k) a b → has b (family (children_of k) fuel a) ≡ false
      out b d = elim (Bool-cases (has b (family (children_of k) fuel a))) [
        | inl e ↦ absurd (d (family-Descends (children_of k) fuel a b e))
        | inr e ↦ e
      ]

  -- A call with valid arguments is the relabelling of the process that the pid names.
  sys_setproclimit-make_family :
      (a : ℕ)
      → Names k pid a
      → UniquePids k.task k.tasks
      → ¬ (interval <ℤ limit)
      → sys_setproclimit fuel pid limit interval k ≡ make_family fuel limit interval a k
  unfolding sys_setproclimit
  sys_setproclimit-make_family a (caller p q) u e = rw (p, q) (ground arith)
  sys_setproclimit-make_family a (listed p w) u e =
      ground (arith, find_task-Listed pid k.task k.tasks a u w)

  -- With a limit that is no greater than the interval and a pid that names the process at `a`,
  -- the call succeeds and relabels the family of `a`.
  pub setproclimit-Relabelled :
      (a : ℕ)
      → Names k pid a
      → UniquePids k.task k.tasks
      → Height (children_of k) fuel a
      → ¬ (interval <ℤ limit)
      → (k' : Kernel) × (sys_setproclimit fuel pid limit interval k ≡ some (success, k'))
        × Relabelled k a limit interval k'
  setproclimit-Relabelled a n u h e =
      rw (sys_setproclimit-make_family a n u e) (make_family-Relabelled a h)

  setproclimit-Invalid :
      Invalid k pid limit interval
      → sys_setproclimit fuel pid limit interval k ≡ some (failure einval, k)
  unfolding sys_setproclimit
  setproclimit-Invalid (over h) = ground arith
  setproclimit-Invalid (below h) = ground arith
  setproclimit-Invalid (absent h m) = elim (find_task-cases pid k.task k.tasks) [
    | inl (f, _) ↦ ground arith
    | inr (a, f, w) ↦ absurd (m a w.in_list w.same_pid)
  ]

  make_family-ne-failure :
      (a : ℕ) (k' : Kernel) (e : Errno) → make_family fuel limit interval a k ≢ some (failure e, k')
  unfolding make_family finish
  make_family-ne-failure a k' e q = ground arith

  setproclimit-failure :
      (e : Errno) (k' : Kernel)
      → sys_setproclimit fuel pid limit interval k ≡ some (failure e, k')
      → Invalid k pid limit interval
  unfolding sys_setproclimit
  setproclimit-failure e k' q = elim (Bool-cases (ltb_ℤ interval limit)) [
    | inl t ↦ over (ground arith)
    | inr f ↦ elim (Bool-cases (pid ==ℤ minus_one)) [
      | inl t ↦ absurd (make_family-ne-failure k.current k' e (ground arith))
      | inr n ↦ elim (Bool-cases (ltb_ℤ minus_one pid)) [
        | inl t ↦ elim (find_task-cases pid k.task k.tasks) [
          | inl (_, m) ↦ absent (ground arith) m
          | inr (a, g, w) ↦ absurd (make_family-ne-failure a k' e (ground arith))
        ]
        | inr g ↦ below (ground arith)
      ]
    ]
  ]

  -- The call refuses every invalid argument with EINVAL and changes nothing; and whenever it fails
  -- the arguments are invalid.
  pub setproclimit-refuses :
      (Invalid k pid limit interval
        → sys_setproclimit fuel pid limit interval k ≡ some (failure einval, k))
      × ((e : Errno) (k' : Kernel)
          → sys_setproclimit fuel pid limit interval k ≡ some (failure e, k')
          → Invalid k pid limit interval)
  setproclimit-refuses = (setproclimit-Invalid, setproclimit-failure)
