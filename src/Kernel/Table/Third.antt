-- ===== src/Kernel/Table/Third.antt =====
-- Part of the table of the system calls
-- (Assignment3/linux-2.6.38.1/arch/x86/kernel/syscall_table_32.S).
use cs.Prelude.{List, [], ◌∷◌}
use cs.Prelude.Text.{Text, codes}

unfoldable pub third_entries : List Text
third_entries =
    codes "sys_lgetxattr"
    ∷ codes "sys_fgetxattr"
    ∷ codes "sys_listxattr"
    ∷ codes "sys_llistxattr"
    ∷ codes "sys_flistxattr"
    ∷ codes "sys_removexattr"
    ∷ codes "sys_lremovexattr"
    ∷ codes "sys_fremovexattr"
    ∷ codes "sys_tkill"
    ∷ codes "sys_sendfile64"
    ∷ codes "sys_futex"
    ∷ codes "sys_sched_setaffinity"
    ∷ codes "sys_sched_getaffinity"
    ∷ codes "sys_set_thread_area"
    ∷ codes "sys_get_thread_area"
    ∷ codes "sys_io_setup"
    ∷ codes "sys_io_destroy"
    ∷ codes "sys_io_getevents"
    ∷ codes "sys_io_submit"
    ∷ codes "sys_io_cancel"
    ∷ codes "sys_fadvise64"
    ∷ codes "sys_ni_syscall"
    ∷ codes "sys_exit_group"
    ∷ codes "sys_lookup_dcookie"
    ∷ codes "sys_epoll_create"
    ∷ codes "sys_epoll_ctl"
    ∷ codes "sys_epoll_wait"
    ∷ codes "sys_remap_file_pages"
    ∷ codes "sys_set_tid_address"
    ∷ codes "sys_timer_create"
    ∷ codes "sys_timer_settime"
    ∷ codes "sys_timer_gettime"
    ∷ codes "sys_timer_getoverrun"
    ∷ codes "sys_timer_delete"
    ∷ codes "sys_clock_settime"
    ∷ codes "sys_clock_gettime"
    ∷ codes "sys_clock_getres"
    ∷ codes "sys_clock_nanosleep"
    ∷ codes "sys_statfs64"
    ∷ codes "sys_fstatfs64"
    ∷ codes "sys_tgkill"
    ∷ codes "sys_utimes"
    ∷ codes "sys_fadvise64_64"
    ∷ codes "sys_ni_syscall"
    ∷ codes "sys_mbind"
    ∷ codes "sys_get_mempolicy"
    ∷ codes "sys_set_mempolicy"
    ∷ codes "sys_mq_open"
    ∷ codes "sys_mq_unlink"
    ∷ codes "sys_mq_timedsend"
    ∷ codes "sys_mq_timedreceive"
    ∷ codes "sys_mq_notify"
    ∷ codes "sys_mq_getsetattr"
    ∷ codes "sys_kexec_load"
    ∷ codes "sys_waitid"
    ∷ codes "sys_ni_syscall"
    ∷ codes "sys_add_key"
    ∷ codes "sys_request_key"
    ∷ codes "sys_keyctl"
    ∷ codes "sys_ioprio_set"
    ∷ codes "sys_ioprio_get"
    ∷ codes "sys_inotify_init"
    ∷ codes "sys_inotify_add_watch"
    ∷ codes "sys_inotify_rm_watch"
    ∷ codes "sys_migrate_pages"
    ∷ codes "sys_openat"
    ∷ codes "sys_mkdirat"
    ∷ codes "sys_mknodat"
    ∷ codes "sys_fchownat"
    ∷ codes "sys_futimesat"
    ∷ codes "sys_fstatat64"
    ∷ codes "sys_unlinkat"
    ∷ codes "sys_renameat"
    ∷ codes "sys_linkat"
    ∷ codes "sys_symlinkat"
    ∷ codes "sys_readlinkat"
    ∷ codes "sys_fchmodat"
    ∷ codes "sys_faccessat"
    ∷ codes "sys_pselect6"
    ∷ codes "sys_ppoll"
    ∷ codes "sys_unshare"
    ∷ codes "sys_set_robust_list"
    ∷ codes "sys_get_robust_list"
    ∷ codes "sys_splice"
    ∷ codes "sys_sync_file_range"
    ∷ codes "sys_tee"
    ∷ codes "sys_vmsplice"
    ∷ codes "sys_move_pages"
    ∷ codes "sys_getcpu"
    ∷ codes "sys_epoll_pwait"
    ∷ codes "sys_utimensat"
    ∷ codes "sys_signalfd"
    ∷ codes "sys_timerfd_create"
    ∷ codes "sys_eventfd"
    ∷ codes "sys_fallocate"
    ∷ codes "sys_timerfd_settime"
    ∷ codes "sys_timerfd_gettime"
    ∷ codes "sys_signalfd4"
    ∷ codes "sys_eventfd2"
    ∷ codes "sys_epoll_create1"
    ∷ codes "sys_dup3"
    ∷ codes "sys_pipe2"
    ∷ codes "sys_inotify_init1"
    ∷ codes "sys_preadv"
    ∷ codes "sys_pwritev"
    ∷ codes "sys_rt_tgsigqueueinfo"
    ∷ codes "sys_perf_event_open"
    ∷ codes "sys_recvmmsg"
    ∷ codes "sys_fanotify_init"
    ∷ codes "sys_fanotify_mark"
    ∷ codes "sys_prlimit64"
    ∷ codes "sys_setproclimit"
    ∷ codes "sys_getproclimit"
    ∷ []
