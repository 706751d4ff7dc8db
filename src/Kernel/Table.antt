-- ===== src/Kernel/Table.antt =====
-- The table of the system calls
-- (Assignment3/linux-2.6.38.1/arch/x86/kernel/syscall_table_32.S).
pub mod First
pub mod Second
pub mod Third
use cs.Prelude.{List, ◌++◌}
use cs.Prelude.Text.{Text}
use cs.Kernel.Table.First.{first_entries}
use cs.Kernel.Table.Second.{second_entries}
use cs.Kernel.Table.Third.{third_entries}

-- The names of the functions, by number.
unfoldable pub sys_call_table : List Text
unfolding first_entries second_entries third_entries
sys_call_table = first_entries ++ (second_entries ++ third_entries)
