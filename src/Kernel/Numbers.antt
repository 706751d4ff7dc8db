-- ===== src/Kernel/Numbers.antt =====
-- The numbers of the system calls
-- (Assignment3/linux-2.6.38.1/arch/x86/include/asm/unistd_32.h).
pub mod Format
pub mod First
pub mod Second
pub mod Third
use cs.Prelude.{ℕ, List, ◌++◌}
use cs.Kernel.Numbers.Format.{CallNumber}
use cs.Kernel.Numbers.First.{first_numbers}
use cs.Kernel.Numbers.Second.{second_numbers}
use cs.Kernel.Numbers.Third.{third_numbers}

unfoldable pub numbers : List CallNumber
unfolding first_numbers second_numbers third_numbers
numbers = first_numbers ++ (second_numbers ++ third_numbers)

abbrev pub nr_syscalls : ℕ
nr_syscalls = 343
