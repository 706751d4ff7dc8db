-- ===== src/Kernel/GetLimit/Report.antt =====
-- The result of `sys_getproclimit` (Assignment3/linux-2.6.38.1/kernel/getproclimit.c), and the
-- two calls one after the other.
use cs.Prelude.{
  ℕ, ◌%◌, ◌^◌, ◌≡◌, ◌≢◌, refl, true, false, has, ◌==◌, arith, Bool-cases, inl, inr, ==_iff,
}
use cs.Prelude.Int.{ℤ, ◌==ℤ◌, ==ℤ_iff, ◌<ℤ◌, ltb_ℤ, minus_one}
use cs.Kernel.Task.{Kernel, einval, efault, Status, success, failure}
use cs.Kernel.Task.Find.{Absent, UniquePids, find_task-cases, find_task-Listed}
use cs.Kernel.SetLimit.Effect.{Names, caller, listed}
use cs.Kernel.GetLimit.{ProcLimit, UserAccess, fill, copied, report, sys_getproclimit}
use cs.Kernel.GetLimit.Spread.{
  Member, family_time, IsGreatest, IsLeast, tally_family-IsGreatest, tally_family-IsLeast,
  tally_family-total,
}

module _ (u : UserAccess) where
  open u use {Memory, access_ok, copy_from_user, copy_to_user}

  -- The conditions of each way out of the call, and what it returns.
  pub data Outcome (k : Kernel) (pid : ℤ) (pl : ℕ) (m : Memory) (r : Status × Memory) : Type 0 where
    null : pl ≡ 0 → r ≡ (failure einval, m) → Outcome k pid pl m r
    below : pl ≢ 0 → pid <ℤ minus_one → r ≡ (failure einval, m) → Outcome k pid pl m r
    absent :
        pl ≢ 0
        → minus_one <ℤ pid
        → Absent pid k.task k.tasks
        → r ≡ (failure einval, m)
        → Outcome k pid pl m r
    fault :
        pl ≢ 0
        → (a : ℕ) → Names k pid a
        → access_ok pl m ≡ false
        → r ≡ (failure efault, m)
        → Outcome k pid pl m r
    unread :
        pl ≢ 0
        → (a : ℕ) → Names k pid a
        → access_ok pl m ≡ true
        → (copy_from_user pl m).0 ≢ 0
        → r ≡ (failure einval, m)
        → Outcome k pid pl m r
    unwritten :
        pl ≢ 0
        → (a : ℕ) → Names k pid a
        → access_ok pl m ≡ true
        → (copy_from_user pl m).0 ≡ 0
        → (copy_to_user pl (fill u (k.task a) k) m).0 ≢ 0
        → r ≡ (failure einval, (copy_to_user pl (fill u (k.task a) k) m).1)
        → Outcome k pid pl m r
    filled :
        pl ≢ 0
        → (a : ℕ) → Names k pid a
        → access_ok pl m ≡ true
        → (copy_from_user pl m).0 ≡ 0
        → (copy_to_user pl (fill u (k.task a) k) m).0 ≡ 0
        → r ≡ (success, (copy_to_user pl (fill u (k.task a) k) m).1)
        → Outcome k pid pl m r

  module _ (k : Kernel) (pid : ℤ) (pl : ℕ) (m : Memory) where
    report-Outcome :
        (a : ℕ) (r : Status × Memory)
        → pl ≢ 0
        → Names k pid a
        → r ≡ report u (k.task a) pl k m
        → Outcome k pid pl m r
    unfolding report copied
    report-Outcome a r p n e = elim (Bool-cases (access_ok pl m)) [
      | inl ok ↦ elim (Bool-cases ((copy_from_user pl m).0 == 0)) [
        | inl full ↦ elim (Bool-cases ((copy_to_user pl (fill u (k.task a) k) m).0 == 0)) [
          | inl back ↦
              filled p a n ok ((==_iff _ _).0 full) ((==_iff _ _).0 back) (ground (arith, e))
          | inr lost ↦ unwritten p a n ok ((==_iff _ _).0 full) (ground arith) (ground (arith, e))
        ]
        | inr short ↦ unread p a n ok (ground arith) (ground (arith, e))
      ]
      | inr bad ↦ fault p a n bad (ground (arith, e))
    ]

    -- Every call ends in one of the seven ways.
    pub getproclimit-Outcome : Outcome k pid pl m (sys_getproclimit u pid pl k m)
    unfolding sys_getproclimit
    getproclimit-Outcome = elim (Bool-cases (pl == 0)) [
      | inl nil ↦ null ((==_iff _ _).0 nil) (ground arith)
      | inr ptr ↦ elim (Bool-cases (pid ==ℤ minus_one)) [
        | inl own ↦
            report-Outcome k.current _ (ground arith) (caller ((==ℤ_iff _ _).0 own) refl)
              (ground arith)
        | inr other ↦ elim (Bool-cases (ltb_ℤ minus_one pid)) [
          | inl up ↦ elim (find_task-cases pid k.task k.tasks) [
            | inl (f, no_one) ↦ absent (ground arith) (ground arith) no_one (ground arith)
            | inr (a, f, w) ↦
                report-Outcome a _ (ground arith) (listed (ground arith) w) (ground arith)
          ]
          | inr down ↦ below (ground arith) (ground arith) (ground arith)
        ]
      ]
    ]

    -- A valid call is the report on the process that the pid names.
    pub sys_getproclimit-report :
        (a : ℕ)
        → Names k pid a
        → UniquePids k.task k.tasks
        → pl ≢ 0
        → sys_getproclimit u pid pl k m ≡ report u (k.task a) pl k m
    unfolding sys_getproclimit
    sys_getproclimit-report a (caller p q) uni h = rw (p, q) (ground arith)
    sys_getproclimit-report a (listed p w) uni h =
        ground (arith, find_task-Listed pid k.task k.tasks a uni w)

  -- What the struct says of a process family that is listed: the sum of the times modulo 2 ^ 32,
  -- the greatest time in `min_cpu_time` and the least one in `max_cpu_time`.
  pub record Swapped (k : Kernel) (root : ℤ) (p : ProcLimit) : Type 0 where
    pub total : p.total_cpu_time ≡ family_time u root k.task k.tasks % 2 ^ 32
    pub greatest : IsGreatest u root k.task k.tasks p.min_cpu_time
    pub least : IsLeast u root k.task k.tasks p.max_cpu_time

  -- The struct filled in for a listed process that belongs to a family describes that family.
  pub fill-Swapped :
      (k : Kernel) (a : ℕ)
      → has a k.tasks ≡ true
      → (k.task a).root_pid ≢ minus_one
      → Swapped k (k.task a).root_pid (fill u (k.task a) k)
  unfolding fill
  fill-Swapped k a h r = rw no_root (record {
    total = tally_family-total u (k.task a).root_pid k.task k.tasks a;
    greatest = tally_family-IsGreatest u (k.task a).root_pid k.task k.tasks a member;
    least = tally_family-IsLeast u (k.task a).root_pid k.task k.tasks a member;
  })
    where
      member : Member u (k.task a).root_pid k.task k.tasks a
      member = record { in_list = h; in_family = refl }

      no_root : ((k.task a).root_pid ==ℤ minus_one) ≡ false
      no_root = elim (Bool-cases ((k.task a).root_pid ==ℤ minus_one)) [
        | inl e ↦ absurd (r ((==ℤ_iff _ _).0 e))
        | inr e ↦ e
      ]
