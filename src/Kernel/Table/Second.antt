-- ===== src/Kernel/Table/Second.antt =====
-- Part of the table of the system calls
-- (Assignment3/linux-2.6.38.1/arch/x86/kernel/syscall_table_32.S).
use cs.Prelude.{List, [], ◌∷◌}
use cs.Prelude.Text.{Text, codes}

unfoldable pub second_entries : List Text
second_entries =
    codes "sys_swapoff"
    ∷ codes "sys_sysinfo"
    ∷ codes "sys_ipc"
    ∷ codes "sys_fsync"
    ∷ codes "ptregs_sigreturn"
    ∷ codes "ptregs_clone"
    ∷ codes "sys_setdomainname"
    ∷ codes "sys_newuname"
    ∷ codes "sys_modify_ldt"
    ∷ codes "sys_adjtimex"
    ∷ codes "sys_mprotect"
    ∷ codes "sys_sigprocmask"
    ∷ codes "sys_ni_syscall"
    ∷ codes "sys_init_module"
    ∷ codes "sys_delete_module"
    ∷ codes "sys_ni_syscall"
    ∷ codes "sys_quotactl"
    ∷ codes "sys_getpgid"
    ∷ codes "sys_fchdir"
    ∷ codes "sys_bdflush"
    ∷ codes "sys_sysfs"
    ∷ codes "sys_personality"
    ∷ codes "sys_ni_syscall"
    ∷ codes "sys_setfsuid16"
    ∷ codes "sys_setfsgid16"
    ∷ codes "sys_llseek"
    ∷ codes "sys_getdents"
    ∷ codes "sys_select"
    ∷ codes "sys_flock"
    ∷ codes "sys_msync"
    ∷ codes "sys_readv"
    ∷ codes "sys_writev"
    ∷ codes "sys_getsid"
    ∷ codes "sys_fdatasync"
    ∷ codes "sys_sysctl"
    ∷ codes "sys_mlock"
    ∷ codes "sys_munlock"
    ∷ codes "sys_mlockall"
    ∷ codes "sys_munlockall"
    ∷ codes "sys_sched_setparam"
    ∷ codes "sys_sched_getparam"
    ∷ codes "sys_sched_setscheduler"
    ∷ codes "sys_sched_getscheduler"
    ∷ codes "sys_sched_yield"
    ∷ codes "sys_sched_get_priority_max"
    ∷ codes "sys_sched_get_priority_min"
    ∷ codes "sys_sched_rr_get_interval"
    ∷ codes "sys_nanosleep"
    ∷ codes "sys_mremap"
    ∷ codes "sys_setresuid16"
    ∷ codes "sys_getresuid16"
    ∷ codes "ptregs_vm86"
    ∷ codes "sys_ni_syscall"
    ∷ codes "sys_poll"
    ∷ codes "sys_nfsservctl"
    ∷ codes "sys_setresgid16"
    ∷ codes "sys_getresgid16"
    ∷ codes "sys_prctl"
    ∷ codes "ptregs_rt_sigreturn"
    ∷ codes "sys_rt_sigaction"
    ∷ codes "sys_rt_sigprocmask"
    ∷ codes "sys_rt_sigpending"
    ∷ codes "sys_rt_sigtimedwait"
    ∷ codes "sys_rt_sigqueueinfo"
    ∷ codes "sys_rt_sigsuspend"
    ∷ codes "sys_pread64"
    ∷ codes "sys_pwrite64"
    ∷ codes "sys_chown16"
    ∷ codes "sys_getcwd"
    ∷ codes "sys_capget"
    ∷ codes "sys_capset"
    ∷ codes "ptregs_sigaltstack"
    ∷ codes "sys_sendfile"
    ∷ codes "sys_ni_syscall"
    ∷ codes "sys_ni_syscall"
    ∷ codes "ptregs_vfork"
    ∷ codes "sys_getrlimit"
    ∷ codes "sys_mmap_pgoff"
    ∷ codes "sys_truncate64"
    ∷ codes "sys_ftruncate64"
    ∷ codes "sys_stat64"
    ∷ codes "sys_lstat64"
    ∷ codes "sys_fstat64"
    ∷ codes "sys_lchown"
    ∷ codes "sys_getuid"
    ∷ codes "sys_getgid"
    ∷ codes "sys_geteuid"
    ∷ codes "sys_getegid"
    ∷ codes "sys_setreuid"
    ∷ codes "sys_setregid"
    ∷ codes "sys_getgroups"
    ∷ codes "sys_setgroups"
    ∷ codes "sys_fchown"
    ∷ codes "sys_setresuid"
    ∷ codes "sys_getresuid"
    ∷ codes "sys_setresgid"
    ∷ codes "sys_getresgid"
    ∷ codes "sys_chown"
    ∷ codes "sys_setuid"
    ∷ codes "sys_setgid"
    ∷ codes "sys_setfsuid"
    ∷ codes "sys_setfsgid"
    ∷ codes "sys_pivot_root"
    ∷ codes "sys_mincore"
    ∷ codes "sys_madvise"
    ∷ codes "sys_getdents64"
    ∷ codes "sys_fcntl64"
    ∷ codes "sys_ni_syscall"
    ∷ codes "sys_ni_syscall"
    ∷ codes "sys_gettid"
    ∷ codes "sys_readahead"
    ∷ codes "sys_setxattr"
    ∷ codes "sys_lsetxattr"
    ∷ codes "sys_fsetxattr"
    ∷ codes "sys_getxattr"
    ∷ []
