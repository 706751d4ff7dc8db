-- ===== src/Kernel/Programs/Gate.antt =====
-- How a system call gets from its number to its function
-- (Assignment3/linux-2.6.38.1/arch/x86/kernel/syscall_table_32.S).
use cs.Prelude.{ℕ, ◌-◌, ◌^◌, ◌≡◌, Option, none, some, List, ◌∷◌, get_elem?}
use cs.Prelude.Int.{ℤ, pos, negsuc}
use cs.Prelude.Text.{codes}
use cs.Kernel.Task.{Kernel, Status}
use cs.Kernel.SetLimit.{sys_setproclimit}
use cs.Kernel.GetLimit.{UserAccess, sys_getproclimit, u32}
use cs.Kernel.Table.{sys_call_table}
use cs.Kernel.Programs.{World, Syscall}

-- A number as a pointer of 32 bits.
abbrev pub address : ℤ → ℕ
address (pos n) = u32 n
address (negsuc n) = 2 ^ 32 - 1 - u32 n

module _ (u : UserAccess) where
  abbrev pub after_set : World u → Option (Status × Kernel) → Option (Status × World u)
  after_set w none = none
  after_set w (some (s, k)) = some (s, record w { kernel = k })

  -- The two functions on their arguments.
  abbrev pub run_set : (fuel : ℕ) (pid limit interval : ℤ) → World u → Option (Status × World u)
  run_set fuel pid limit interval w =
      after_set w (sys_setproclimit fuel pid limit interval w.kernel)

  abbrev pub run_get : (pid pl : ℤ) → World u → Option (Status × World u)
  run_get pid pl w =
      let r = sys_getproclimit u pid (address pl) w.kernel w.memory in
      some (r.0, record w { memory = r.1 })

  -- A system call runs the function that the table names at its number.
  pub record Dispatches (fuel : ℕ) (syscall : Syscall u) : Type 0 where
    pub sets :
        (n : ℕ) (pid limit interval : ℤ) (rest : List ℤ) (w : World u)
        → get_elem? sys_call_table n ≡ some (codes "sys_setproclimit")
        → syscall n (pid ∷ limit ∷ interval ∷ rest) w ≡ run_set fuel pid limit interval w
    pub gets :
        (n : ℕ) (pid pl : ℤ) (rest : List ℤ) (w : World u)
        → get_elem? sys_call_table n ≡ some (codes "sys_getproclimit")
        → syscall n (pid ∷ pl ∷ rest) w ≡ run_get pid pl w
