-- ===== src/Kernel/Syscalls.antt =====
-- The numbers of the system calls and the table that they index
-- (Assignment3/linux-2.6.38.1/arch/x86/include/asm/unistd_32.h and
-- Assignment3/linux-2.6.38.1/arch/x86/kernel/syscall_table_32.S).
pub mod Entries
pub mod Order
pub mod Named
use cs.Prelude.{
  ℕ, zero, suc, ◌+◌, ◌≤◌, ◌<◌, ◌≡◌, refl, Bool, true, false, ◌&&◌, ◌||◌, ◌⊎◌, inl, inr, Option,
  none, some, List, [], ◌∷◌, ◌++◌, length, get_elem?, drop, All, ◌==◌, ltb, arith, Bool-cases,
  Option-cases, sym, ◌∙◌, ap, dec_lt, if◌then◌else◌,
}
use mathlib.Core.Option.{some-injective}
use mathlib.Core.Option
use cs.Prelude.Text.{Text, codes, text_eq, text_eq_iff}
use cs.Kernel.Numbers.{numbers, nr_syscalls}
use cs.Kernel.Numbers.Format.{CallNumber}
use cs.Kernel.Table.{sys_call_table}

abbrev pub ni_syscall : Text
ni_syscall = codes "sys_ni_syscall"

-- Calls whose function has a name of its own.
abbrev pub is_renamed : Text → Text → Bool
is_renamed call entry =
    text_eq call (codes "umount") && text_eq entry (codes "sys_oldumount")
    || text_eq call (codes "umount2") && text_eq entry (codes "sys_umount")
    || text_eq call (codes "_newselect") && text_eq entry (codes "sys_select")
    || text_eq call (codes "ugetrlimit") && text_eq entry (codes "sys_getrlimit")
    || text_eq call (codes "mmap2") && text_eq entry (codes "sys_mmap_pgoff")
    || text_eq call (codes "madvise1") && text_eq entry (codes "sys_madvise")

-- Calls that the header names and the kernel has no function for.
abbrev pub is_removed : Text → Bool
is_removed call =
    text_eq call (codes "break")
    || text_eq call (codes "stty")
    || text_eq call (codes "gtty")
    || text_eq call (codes "ftime")
    || text_eq call (codes "prof")
    || text_eq call (codes "lock")
    || text_eq call (codes "mpx")
    || text_eq call (codes "ulimit")
    || text_eq call (codes "profil")
    || text_eq call (codes "idle")
    || text_eq call (codes "create_module")
    || text_eq call (codes "get_kernel_syms")
    || text_eq call (codes "afs_syscall")
    || text_eq call (codes "query_module")
    || text_eq call (codes "getpmsg")
    || text_eq call (codes "putpmsg")
    || text_eq call (codes "vserver")

-- The function of a call has the call's name behind `sys_`; a call that needs the registers has
-- `ptregs_`, and a call with an older or newer form has its marks; a removed call has
-- `sys_ni_syscall`.
abbrev pub handles : Text → Text → Bool
handles call entry =
    text_eq entry (codes "sys_" ++ call)
    || text_eq entry (codes "ptregs_" ++ call)
    || text_eq entry (codes "sys_" ++ (call ++ codes "16"))
    || text_eq (entry ++ codes "32") (codes "sys_" ++ call)
    || text_eq entry (codes "sys_old_" ++ call)
    || text_eq entry (codes "sys_new" ++ call)
    || text_eq entry (codes "sys" ++ call)
    || text_eq call (codes "old" ++ drop 3 call) && text_eq entry (codes "sys_" ++ drop 3 call)
    || is_removed call && text_eq entry ni_syscall
    || is_renamed call entry
