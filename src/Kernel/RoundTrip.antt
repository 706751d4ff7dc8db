-- ===== src/Kernel/RoundTrip.antt =====
-- `setproclimit` followed by `getproclimit` (Assignment3/linux-2.6.38.1/kernel).
use cs.Prelude.{ℕ, ◌≡◌, ◌≢◌, sym, ap, ◌∙◌, true, some, arith}
use cs.Prelude.Int.{ℤ, ◌<ℤ◌}
use cs.Kernel.Task.{Task, Kernel, success}
use cs.Kernel.Task.Find.{UniquePids}
use cs.Kernel.SetLimit.{relabel, sys_setproclimit}
use cs.Kernel.SetLimit.Effect.{Names, caller, listed, Relabelled, setproclimit-Relabelled}
use cs.Kernel.SetLimit.Dump.{children_of}
use cs.Kernel.SetLimit.Family.{Height, Descends}
use cs.Kernel.GetLimit.{ProcLimit, UserAccess, fill, report, copied, sys_getproclimit}
use cs.Kernel.GetLimit.Report.{sys_getproclimit-report}

-- After a copy to user space that missed nothing, a copy back reads the same struct.
abbrev pub ReadsBack : UserAccess → Type 0
ReadsBack u =
    (pl : ℕ) (p : ProcLimit) (m : u.Memory)
    → (u.copy_to_user pl p m).0 ≡ 0
    → u.copy_from_user pl (u.copy_to_user pl p m).1 ≡ (0, p)

-- At `pl` user space may be read and written.
pub record CanWrite (u : UserAccess) (pl : ℕ) (m : u.Memory) : Type 0 where
  pub ne_null : pl ≢ 0
  pub ok : u.access_ok pl m ≡ true
  pub full : (u.copy_from_user pl m).0 ≡ 0
  pub back : (p : ProcLimit) → (u.copy_to_user pl p m).0 ≡ 0

-- The struct at `pl` names this root, limit and interval.
pub record Limits (u : UserAccess) (pl : ℕ) (m : u.Memory) (root limit interval : ℤ) : Type 0 where
  pub root_is : (u.copy_from_user pl m).1.root_pid ≡ root
  pub limit_is : (u.copy_from_user pl m).1.time_limit ≡ limit
  pub interval_is : (u.copy_from_user pl m).1.time_interval ≡ interval

pub fill-root : (u : UserAccess) (t : Task) (k : Kernel) → (fill u t k).root_pid ≡ t.root_pid
unfolding fill
fill-root u t k = ground arith

pub fill-limit : (u : UserAccess) (t : Task) (k : Kernel) → (fill u t k).time_limit ≡ t.time_limit
unfolding fill
fill-limit u t k = ground arith

pub fill-interval :
    (u : UserAccess) (t : Task) (k : Kernel) → (fill u t k).time_interval ≡ t.time_interval
unfolding fill
fill-interval u t k = ground arith

module _ {k k' : Kernel} {a : ℕ} {limit interval : ℤ} (w : Relabelled k a limit interval k') where
  Names-later : (pid : ℤ) (b : ℕ) → Names k pid b → Names k' pid b
  Names-later pid b (caller p q) = caller p (q ∙ sym w.same_caller)
  Names-later pid b (listed p v) =
      listed p
        (record { in_list = rw w.same_list v.in_list; same_pid = w.same_pids b ∙ v.same_pid })

  UniquePids-later : UniquePids k.task k.tasks → UniquePids k'.task k'.tasks
  UniquePids-later uni b c hb hc e =
      uni b c (rw w.same_list at hb) (rw w.same_list at hc)
        (sym (w.same_pids b) ∙ e ∙ w.same_pids c)

module _ (u : UserAccess) (reads_back : ReadsBack u) {pl : ℕ} {m : u.Memory}
    (can : CanWrite u pl m) where
  -- A report into writable memory is read back with the three fields of the process.
  pub report-Limits :
      (t : Task) (k : Kernel)
      → (m' : u.Memory) × (report u t pl k m ≡ (success, m'))
        × Limits u pl m' t.root_pid t.time_limit t.time_interval
  unfolding report copied
  report-Limits t k =
      let p = fill u t k in
      let r = ap (λ x. x.1) (reads_back pl p m (can.back p)) in
      (
        (u.copy_to_user pl p m).1,
        rw (can.ok, can.full, can.back p),
        record {
          root_is = ap (λ (x : ProcLimit). x.root_pid) r ∙ fill-root u t k;
          limit_is = ap (λ (x : ProcLimit). x.time_limit) r ∙ fill-limit u t k;
          interval_is = ap (λ (x : ProcLimit). x.time_interval) r ∙ fill-interval u t k;
        },
      )

  -- After `setproclimit` on a process, `getproclimit` on any process of its family reads the pid
  -- of the root, the limit and the interval that were set.
  pub set-get :
      (fuel : ℕ) (k : Kernel) (pid limit interval : ℤ) (a : ℕ)
      → Names k pid a
      → UniquePids k.task k.tasks
      → Height (children_of k) fuel a
      → ¬ (interval <ℤ limit)
      → (k' : Kernel) × (sys_setproclimit fuel pid limit interval k ≡ some (success, k'))
        × ((b : ℕ) (pid_b : ℤ)
            → Descends (children_of k) a b
            → Names k pid_b b
            → (m' : u.Memory) × (sys_getproclimit u pid_b pl k' m ≡ (success, m'))
              × Limits u pl m' (k.task a).pid limit interval)
  set-get fuel k pid limit interval a n uni h e =
      let (k', q, w) = setproclimit-Relabelled fuel k pid limit interval a n uni h e in
      (
        k',
        q,
        λ b pid_b d nb.
            rw
              (
                sys_getproclimit-report u k' pid_b pl m b (Names-later w pid_b b nb)
                    (UniquePids-later w uni) can.ne_null,
                w.inside b d,
              )
              (report-Limits (relabel (k.task a).pid limit interval (k.task b)) k'),
      )
