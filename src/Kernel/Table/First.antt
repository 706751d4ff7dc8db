-- ===== src/Kernel/Table/First.antt =====
-- Part of the table of the system calls
-- (Assignment3/linux-2.6.38.1/arch/x86/kernel/syscall_table_32.S).
use cs.Prelude.{List, [], ◌∷◌}
use cs.Prelude.Text.{Text, codes}

unfoldable pub first_entries : List Text
first_entries =
    codes "sys_restart_syscall"
    ∷ codes "sys_exit"
    ∷ codes "ptregs_fork"
    ∷ codes "sys_read"
    ∷ codes "sys_write"
    ∷ codes "sys_open"
    ∷ codes "sys_close"
    ∷ codes "sys_waitpid"
    ∷ codes "sys_creat"
    ∷ codes "sys_link"
    ∷ codes "sys_unlink"
    ∷ codes "ptregs_execve"
    ∷ codes "sys_chdir"
    ∷ codes "sys_time"
    ∷ codes "sys_mknod"
    ∷ codes "sys_chmod"
    ∷ codes "sys_lchown16"
    ∷ codes "sys_ni_syscall"
    ∷ codes "sys_stat"
    ∷ codes "sys_lseek"
    ∷ codes "sys_getpid"
    ∷ codes "sys_mount"
    ∷ codes "sys_oldumount"
    ∷ codes "sys_setuid16"
    ∷ codes "sys_getuid16"
    ∷ codes "sys_stime"
    ∷ codes "sys_ptrace"
    ∷ codes "sys_alarm"
    ∷ codes "sys_fstat"
    ∷ codes "sys_pause"
    ∷ codes "sys_utime"
    ∷ codes "sys_ni_syscall"
    ∷ codes "sys_ni_syscall"
    ∷ codes "sys_access"
    ∷ codes "sys_nice"
    ∷ codes "sys_ni_syscall"
    ∷ codes "sys_sync"
    ∷ codes "sys_kill"
    ∷ codes "sys_rename"
    ∷ codes "sys_mkdir"
    ∷ codes "sys_rmdir"
    ∷ codes "sys_dup"
    ∷ codes "sys_pipe"
    ∷ codes "sys_times"
    ∷ codes "sys_ni_syscall"
    ∷ codes "sys_brk"
    ∷ codes "sys_setgid16"
    ∷ codes "sys_getgid16"
    ∷ codes "sys_signal"
    ∷ codes "sys_geteuid16"
    ∷ codes "sys_getegid16"
    ∷ codes "sys_acct"
    ∷ codes "sys_umount"
    ∷ codes "sys_ni_syscall"
    ∷ codes "sys_ioctl"
    ∷ codes "sys_fcntl"
    ∷ codes "sys_ni_syscall"
    ∷ codes "sys_setpgid"
    ∷ codes "sys_ni_syscall"
    ∷ codes "sys_olduname"
    ∷ codes "sys_umask"
    ∷ codes "sys_chroot"
    ∷ codes "sys_ustat"
    ∷ codes "sys_dup2"
    ∷ codes "sys_getppid"
    ∷ codes "sys_getpgrp"
    ∷ codes "sys_setsid"
    ∷ codes "sys_sigaction"
    ∷ codes "sys_sgetmask"
    ∷ codes "sys_ssetmask"
    ∷ codes "sys_setreuid16"
    ∷ codes "sys_setregid16"
    ∷ codes "sys_sigsuspend"
    ∷ codes "sys_sigpending"
    ∷ codes "sys_sethostname"
    ∷ codes "sys_setrlimit"
    ∷ codes "sys_old_getrlimit"
    ∷ codes "sys_getrusage"
    ∷ codes "sys_gettimeofday"
    ∷ codes "sys_settimeofday"
    ∷ codes "sys_getgroups16"
    ∷ codes "sys_setgroups16"
    ∷ codes "sys_old_select"
    ∷ codes "sys_symlink"
    ∷ codes "sys_lstat"
    ∷ codes "sys_readlink"
    ∷ codes "sys_uselib"
    ∷ codes "sys_swapon"
    ∷ codes "sys_reboot"
    ∷ codes "sys_old_readdir"
    ∷ codes "sys_old_mmap"
    ∷ codes "sys_munmap"
    ∷ codes "sys_truncate"
    ∷ codes "sys_ftruncate"
    ∷ codes "sys_fchmod"
    ∷ codes "sys_fchown16"
    ∷ codes "sys_getpriority"
    ∷ codes "sys_setpriority"
    ∷ codes "sys_ni_syscall"
    ∷ codes "sys_statfs"
    ∷ codes "sys_fstatfs"
    ∷ codes "sys_ioperm"
    ∷ codes "sys_socketcall"
    ∷ codes "sys_syslog"
    ∷ codes "sys_setitimer"
    ∷ codes "sys_getitimer"
    ∷ codes "sys_newstat"
    ∷ codes "sys_newlstat"
    ∷ codes "sys_newfstat"
    ∷ codes "sys_uname"
    ∷ codes "ptregs_iopl"
    ∷ codes "sys_vhangup"
    ∷ codes "sys_ni_syscall"
    ∷ codes "ptregs_vm86old"
    ∷ codes "sys_wait4"
    ∷ []
