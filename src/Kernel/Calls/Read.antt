-- ===== src/Kernel/Calls/Read.antt =====
-- What `sys_getproclimit` reads after calls of `sys_setproclimit` by several processes
-- (Assignment3/linux-2.6.38.1/kernel).
use cs.Prelude.{ℕ, ◌≡◌, refl, sym, ◌∙◌, some, List, All}
use cs.Prelude.Int.{ℤ, minus_one, ◌<ℤ◌}
use cs.Kernel.Task.{Kernel, success}
use cs.Kernel.Task.Find.{Listed, UniquePids}
use cs.Kernel.SetLimit.Effect.{listed}
use cs.Kernel.GetLimit.{UserAccess, sys_getproclimit}
use cs.Kernel.GetLimit.Report.{sys_getproclimit-report}
use cs.Kernel.RoundTrip.{ReadsBack, CanWrite, Limits, report-Limits}
use cs.Kernel.Calls.{SetCall, set_limits, statuses, last_label, labelled}
use cs.Kernel.Calls.Latest.{SameTree, Shallow, set_limits-Labelled}

Listed-same :
    {k0 k : Kernel} (pid : ℤ) (b : ℕ)
    → SameTree k0 k
    → Listed pid k0.task k0.tasks b
    → Listed pid k.task k.tasks b
Listed-same pid b w v = record { in_list = rw w.tasks v.in_list; same_pid = w.pids b ∙ v.same_pid }

UniquePids-same :
    {k0 k : Kernel} → SameTree k0 k → UniquePids k0.task k0.tasks → UniquePids k.task k.tasks
UniquePids-same w uni b c hb hc e =
    uni b c (rw w.tasks at hb) (rw w.tasks at hc) (sym (w.pids b) ∙ e ∙ w.pids c)

-- After any calls of `setproclimit` by any processes, valid or not, with fuel above the depth of
-- the trees, each has failed with EINVAL or succeeded as its arguments and the pids at the start
-- say; and `getproclimit` on a listed process reads the root's pid, the limit and the interval of
-- the last call about a family that it belongs to, or what the process had before where there is
-- none.
pub set_limits-get :
    (u : UserAccess)
    → ReadsBack u
    → {pl : ℕ} {m : u.Memory} → CanWrite u pl m
    → (fuel : ℕ) (k : Kernel) (l : List SetCall) → UniquePids k.task k.tasks
    → All (Shallow fuel k) l
    → (k' : Kernel) × (set_limits fuel l k ≡ some (statuses k l, k'))
      × ((b : ℕ) (pid : ℤ)
          → minus_one <ℤ pid
          → Listed pid k.task k.tasks b
          → let t = labelled (last_label fuel k b l) (k.task b) in
            (m' : u.Memory) × (sys_getproclimit u pid pl k' m ≡ (success, m'))
            × Limits u pl m' t.root_pid t.time_limit t.time_interval)
set_limits-get u reads_back {pl} {m} can fuel k l uni shallow =
    let start : SameTree k k = record { pids = λ b. refl; children = refl; tasks = refl } in
    let (k', runs, r) = set_limits-Labelled fuel k k l start shallow in
    (
      k',
      runs,
      λ b pid above v.
          rw
            (
              sys_getproclimit-report u k' pid pl m b (listed above (Listed-same pid b r.tree v))
                  (UniquePids-same r.tree uni) can.ne_null,
              r.tasks b,
            )
            (report-Limits u reads_back can (labelled (last_label fuel k b l) (k.task b)) k'),
    )
