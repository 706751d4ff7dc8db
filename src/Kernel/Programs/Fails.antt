-- ===== src/Kernel/Programs/Fails.antt =====
-- What the test programs do to the limits (Assignment3/test1.c and Assignment3/test3.c).
use cs.Prelude.{
  ℕ, ◌≡◌, ◌≢◌, refl, true, false, ◌⊎◌, inl, inr, Option, none, some, [], ◌∷◌, get_elem?,
  if◌then◌else◌, ◌==◌, arith, Bool-cases, Option-cases,
}
use cs.Prelude.Int.{ℤ, pos, ltb_ℤ, minus_one, ◌==ℤ◌}
use cs.Prelude.Text.{Text, codes}
use cs.Kernel.Task.{Task, Kernel, Status, success, failure, Errno, einval, efault, find_task}
use cs.Kernel.GetLimit.{UserAccess, sys_getproclimit, report}
use cs.Kernel.Table.{sys_call_table}
use cs.Kernel.Programs.{
  World, message, printed, Ended, Syscall, getproclimit, setproclimit, set_step, get_step,
  exit_with, return_0, show, test1, test3, test3_limit,
}
use cs.Kernel.Programs.Gate.{address, run_get, Dispatches}

entry_342 : get_elem? sys_call_table 342 ≡ some (codes "sys_getproclimit")
unfolding sys_call_table
entry_342 = refl

-- Nothing that the kernel may read stands at this address.
abbrev pub IsUnmapped : (u : UserAccess) → ℕ → u.Memory → Type 0
IsUnmapped u a m = (u.access_ok a m ≡ false) ⊎ ((u.copy_from_user a m).0 ≢ 0)

Status-cases : (s : Status) → (s ≡ success) ⊎ ((e : Errno) × (s ≡ failure e))
Status-cases success = inl refl
Status-cases (failure e) = inr (e, refl)

module _ (u : UserAccess) (fuel : ℕ) (syscall : Syscall u) (d : Dispatches u fuel syscall) where
  set-get_call :
      (pid limit interval : ℤ) (w : World u)
      → setproclimit u syscall pid limit interval w ≡ run_get u pid limit w
  unfolding setproclimit
  set-get_call pid limit interval w = d.gets 342 pid limit (interval ∷ []) w entry_342

  get_call :
      (pid : ℤ) (pl : ℕ) (w : World u) → getproclimit u syscall pid pl w ≡ run_get u pid (pos pl) w
  unfolding getproclimit
  get_call pid pl w = d.gets 342 pid (pos pl) [] w entry_342

report-IsUnmapped :
    (u : UserAccess) (t : Task) (pl : ℕ) (k : Kernel) (m : u.Memory)
    → IsUnmapped u pl m
    → (e : Errno) × (report u t pl k m ≡ (failure e, m))
unfolding report
report-IsUnmapped u t pl k m (inl no_access) = (efault, rw no_access)
report-IsUnmapped u t pl k m (inr missed) = elim (Bool-cases (u.access_ok pl m)) [
  | inl t ↦ (einval, ground (arith, t, missed))
  | inr f ↦ (efault, rw f)
]

-- With such an address the call fails for every pid, and leaves the memory as it was.
getproclimit-IsUnmapped :
    (u : UserAccess) (pid : ℤ) (pl : ℕ) (k : Kernel) (m : u.Memory)
    → IsUnmapped u pl m
    → (e : Errno) × (sys_getproclimit u pid pl k m ≡ (failure e, m))
unfolding sys_getproclimit
getproclimit-IsUnmapped u pid pl k m h = elim (Bool-cases (pl == 0)) [
  | inl z ↦ (einval, rw z)
  | inr nz ↦ elim (Bool-cases (pid ==ℤ minus_one)) [
    | inl t ↦ rw (nz, t) (report-IsUnmapped u (k.task k.current) pl k m h)
    | inr n ↦ elim (Bool-cases (ltb_ℤ minus_one pid)) [
      | inl t ↦ elim (Option-cases (find_task pid k.task k.tasks)) [
        | inl e ↦ (einval, rw (nz, n, t, e))
        | inr (a, e) ↦ rw (nz, n, t, e) (report-IsUnmapped u (k.task a) pl k m h)
      ]
      | inr g ↦
          let below : ltb_ℤ pid minus_one ≡ true = ground arith in (einval, rw (nz, n, g, below))
    ]
  ]
]

module _ (u : UserAccess) (fuel : ℕ) (syscall : Syscall u) (d : Dispatches u fuel syscall) where
  -- The step of a program that means to set a limit fails.
  set_step-IsUnmapped :
      (pid limit interval : ℤ) (next : World u → Option (Ended u)) (w : World u)
      → IsUnmapped u (address limit) w.memory
      → set_step u syscall pid limit interval next w
        ≡ some (record { status = 1; events = message (codes "setproclimit") ∷ []; world = w })
  unfolding set_step exit_with
  set_step-IsUnmapped pid limit interval next w h =
      let (e, f) = getproclimit-IsUnmapped u pid (address limit) w.kernel w.memory h in
      rw (set-get_call u fuel syscall d pid limit interval w, set_step, f)

  -- With nothing at address 10, `test1` ends with status 1 at its first call, and changes nothing.
  pub test1_fails :
      (counting sleeping : World u → World u) (pl : ℕ) (w : World u)
      → IsUnmapped u 10 w.memory
      → test1 u syscall counting sleeping (some pl) w
        ≡ some (record { status = 1; events = message (codes "setproclimit") ∷ []; world = w })
  unfolding test1
  test1_fails counting sleeping pl w h = set_step-IsUnmapped minus_one (pos 10) (pos 11) _ w h

  -- With nothing at the address that the limit names, `test3` changes nothing: it ends with its
  -- message and status 0 for a limit from 1000 on, and with status 1 at its first call for
  -- another.
  pub test3_fails :
      (atoi : Text → ℤ) (pl : ℕ) (a b : Text) (w : World u)
      → IsUnmapped u (address (atoi b)) w.memory
      → test3 u syscall atoi (some pl) (a ∷ b ∷ []) w ≡ (
          if ltb_ℤ (atoi b) (pos 1000)
          then some (record { status = 1; events = message (codes "setproclimit") ∷ []; world = w })
          else some (record {
            status = 0;
            events = message (codes "limit must be less than 1000.\n") ∷ [];
            world = w;
          }))
  unfolding test3 test3_limit exit_with
  test3_fails atoi pl a b w h = elim (Bool-cases (ltb_ℤ (atoi b) (pos 1000))) [
    | inl t ↦ rw t (set_step-IsUnmapped (atoi a) (atoi b) (pos 1000) _ w h)
    | inr f ↦ rw f
  ]

  -- A step of a program leaves the kernel as it was where the rest does.
  set_step-kernel :
      (pid limit interval : ℤ) (next : World u → Option (Ended u)) (w : World u)
      → ((w' : World u) → (r : Ended u) × (next w' ≡ some r) × (r.world.kernel ≡ w'.kernel))
      → (r : Ended u) × (set_step u syscall pid limit interval next w ≡ some r)
        × (r.world.kernel ≡ w.kernel)
  unfolding set_step exit_with
  set_step-kernel pid limit interval next w keep =
      let r = sys_getproclimit u pid (address limit) w.kernel w.memory in
      elim (Status-cases r.0) [
        | inl s ↦
            let (q, e, k) = keep (record w { memory = r.1 }) in
            (q, rw (set-get_call u fuel syscall d pid limit interval w, set_step, s) e, k)
        | inr (e, f) ↦ (
          record {
            status = 1;
            events = message (codes "setproclimit") ∷ [];
            world = record w { memory = r.1 };
          },
          rw (set-get_call u fuel syscall d pid limit interval w, set_step, f),
          refl,
        )
      ]

  get_step-kernel :
      (pid : ℤ) (pl : ℕ) (next : World u → Option (Ended u)) (w : World u)
      → ((w' : World u) → (r : Ended u) × (next w' ≡ some r) × (r.world.kernel ≡ w'.kernel))
      → (r : Ended u) × (get_step u syscall pid pl next w ≡ some r) × (r.world.kernel ≡ w.kernel)
  unfolding get_step exit_with show
  get_step-kernel pid pl next w keep =
      let r = sys_getproclimit u pid (address (pos pl)) w.kernel w.memory in
      elim (Status-cases r.0) [
        | inl s ↦
            let (q, e, k) = keep (record w { memory = r.1 }) in
            (
              record q { events = printed (u.copy_from_user pl r.1).1 ∷ q.events },
              rw (get_call u fuel syscall d pid pl w, get_step, s, e, show),
              k,
            )
        | inr (e, f) ↦ (
          record {
            status = 1;
            events = message (codes "getproclimit") ∷ [];
            world = record w { memory = r.1 };
          },
          rw (get_call u fuel syscall d pid pl w, get_step, f),
          refl,
        )
      ]

  -- Whatever the memory holds, `test3` with two arguments ends and leaves every process and its
  -- limits as they were.
  pub test3-kernel :
      (atoi : Text → ℤ) (room : Option ℕ) (a b : Text) (w : World u)
      → (r : Ended u) × (test3 u syscall atoi room (a ∷ b ∷ []) w ≡ some r)
        × (r.world.kernel ≡ w.kernel)
  unfolding test3 test3_limit exit_with return_0
  test3-kernel atoi none a b w = (_, refl, refl)
  test3-kernel atoi (some pl) a b w = elim (Bool-cases (ltb_ℤ (atoi b) (pos 1000))) [
    | inl t ↦ rw t (
        set_step-kernel (atoi a) (atoi b) (pos 1000) _ w
          (λ w'. get_step-kernel (atoi a) pl _ w' (λ x. (_, refl, refl))))
    | inr f ↦ rw f (_, refl, refl)
  ]
