-- ===== src/Kernel/Numbers/First.antt =====
-- Part of the numbers of the system calls
-- (Assignment3/linux-2.6.38.1/arch/x86/include/asm/unistd_32.h).
use cs.Prelude.{List, [], ◌∷◌}
use cs.Kernel.Numbers.Format.{CallNumber, nr}

unfoldable pub first_numbers : List CallNumber
first_numbers =
    nr "restart_syscall" 0
    ∷ nr "exit" 1
    ∷ nr "fork" 2
    ∷ nr "read" 3
    ∷ nr "write" 4
    ∷ nr "open" 5
    ∷ nr "close" 6
    ∷ nr "waitpid" 7
    ∷ nr "creat" 8
    ∷ nr "link" 9
    ∷ nr "unlink" 10
    ∷ nr "execve" 11
    ∷ nr "chdir" 12
    ∷ nr "time" 13
    ∷ nr "mknod" 14
    ∷ nr "chmod" 15
    ∷ nr "lchown" 16
    ∷ nr "break" 17
    ∷ nr "oldstat" 18
    ∷ nr "lseek" 19
    ∷ nr "getpid" 20
    ∷ nr "mount" 21
    ∷ nr "umount" 22
    ∷ nr "setuid" 23
    ∷ nr "getuid" 24
    ∷ nr "stime" 25
    ∷ nr "ptrace" 26
    ∷ nr "alarm" 27
    ∷ nr "oldfstat" 28
    ∷ nr "pause" 29
    ∷ nr "utime" 30
    ∷ nr "stty" 31
    ∷ nr "gtty" 32
    ∷ nr "access" 33
    ∷ nr "nice" 34
    ∷ nr "ftime" 35
    ∷ nr "sync" 36
    ∷ nr "kill" 37
    ∷ nr "rename" 38
    ∷ nr "mkdir" 39
    ∷ nr "rmdir" 40
    ∷ nr "dup" 41
    ∷ nr "pipe" 42
    ∷ nr "times" 43
    ∷ nr "prof" 44
    ∷ nr "brk" 45
    ∷ nr "setgid" 46
    ∷ nr "getgid" 47
    ∷ nr "signal" 48
    ∷ nr "geteuid" 49
    ∷ nr "getegid" 50
    ∷ nr "acct" 51
    ∷ nr "umount2" 52
    ∷ nr "lock" 53
    ∷ nr "ioctl" 54
    ∷ nr "fcntl" 55
    ∷ nr "mpx" 56
    ∷ nr "setpgid" 57
    ∷ nr "ulimit" 58
    ∷ nr "oldolduname" 59
    ∷ nr "umask" 60
    ∷ nr "chroot" 61
    ∷ nr "ustat" 62
    ∷ nr "dup2" 63
    ∷ nr "getppid" 64
    ∷ nr "getpgrp" 65
    ∷ nr "setsid" 66
    ∷ nr "sigaction" 67
    ∷ nr "sgetmask" 68
    ∷ nr "ssetmask" 69
    ∷ nr "setreuid" 70
    ∷ nr "setregid" 71
    ∷ nr "sigsuspend" 72
    ∷ nr "sigpending" 73
    ∷ nr "sethostname" 74
    ∷ nr "setrlimit" 75
    ∷ nr "getrlimit" 76
    ∷ nr "getrusage" 77
    ∷ nr "gettimeofday" 78
    ∷ nr "settimeofday" 79
    ∷ nr "getgroups" 80
    ∷ nr "setgroups" 81
    ∷ nr "select" 82
    ∷ nr "symlink" 83
    ∷ nr "oldlstat" 84
    ∷ nr "readlink" 85
    ∷ nr "uselib" 86
    ∷ nr "swapon" 87
    ∷ nr "reboot" 88
    ∷ nr "readdir" 89
    ∷ nr "mmap" 90
    ∷ nr "munmap" 91
    ∷ nr "truncate" 92
    ∷ nr "ftruncate" 93
    ∷ nr "fchmod" 94
    ∷ nr "fchown" 95
    ∷ nr "getpriority" 96
    ∷ nr "setpriority" 97
    ∷ nr "profil" 98
    ∷ nr "statfs" 99
    ∷ nr "fstatfs" 100
    ∷ nr "ioperm" 101
    ∷ nr "socketcall" 102
    ∷ nr "syslog" 103
    ∷ nr "setitimer" 104
    ∷ nr "getitimer" 105
    ∷ nr "stat" 106
    ∷ nr "lstat" 107
    ∷ nr "fstat" 108
    ∷ nr "olduname" 109
    ∷ nr "iopl" 110
    ∷ nr "vhangup" 111
    ∷ nr "idle" 112
    ∷ nr "vm86old" 113
    ∷ nr "wait4" 114
    ∷ []
