-- ===== src/Kernel/Numbers/Second.antt =====
-- Part of the numbers of the system calls
-- (Assignment3/linux-2.6.38.1/arch/x86/include/asm/unistd_32.h).
use cs.Prelude.{List, [], ◌∷◌}
use cs.Kernel.Numbers.Format.{CallNumber, nr}

unfoldable pub second_numbers : List CallNumber
second_numbers =
    nr "swapoff" 115
    ∷ nr "sysinfo" 116
    ∷ nr "ipc" 117
    ∷ nr "fsync" 118
    ∷ nr "sigreturn" 119
    ∷ nr "clone" 120
    ∷ nr "setdomainname" 121
    ∷ nr "uname" 122
    ∷ nr "modify_ldt" 123
    ∷ nr "adjtimex" 124
    ∷ nr "mprotect" 125
    ∷ nr "sigprocmask" 126
    ∷ nr "create_module" 127
    ∷ nr "init_module" 128
    ∷ nr "delete_module" 129
    ∷ nr "get_kernel_syms" 130
    ∷ nr "quotactl" 131
    ∷ nr "getpgid" 132
    ∷ nr "fchdir" 133
    ∷ nr "bdflush" 134
    ∷ nr "sysfs" 135
    ∷ nr "personality" 136
    ∷ nr "afs_syscall" 137
    ∷ nr "setfsuid" 138
    ∷ nr "setfsgid" 139
    ∷ nr "_llseek" 140
    ∷ nr "getdents" 141
    ∷ nr "_newselect" 142
    ∷ nr "flock" 143
    ∷ nr "msync" 144
    ∷ nr "readv" 145
    ∷ nr "writev" 146
    ∷ nr "getsid" 147
    ∷ nr "fdatasync" 148
    ∷ nr "_sysctl" 149
    ∷ nr "mlock" 150
    ∷ nr "munlock" 151
    ∷ nr "mlockall" 152
    ∷ nr "munlockall" 153
    ∷ nr "sched_setparam" 154
    ∷ nr "sched_getparam" 155
    ∷ nr "sched_setscheduler" 156
    ∷ nr "sched_getscheduler" 157
    ∷ nr "sched_yield" 158
    ∷ nr "sched_get_priority_max" 159
    ∷ nr "sched_get_priority_min" 160
    ∷ nr "sched_rr_get_interval" 161
    ∷ nr "nanosleep" 162
    ∷ nr "mremap" 163
    ∷ nr "setresuid" 164
    ∷ nr "getresuid" 165
    ∷ nr "vm86" 166
    ∷ nr "query_module" 167
    ∷ nr "poll" 168
    ∷ nr "nfsservctl" 169
    ∷ nr "setresgid" 170
    ∷ nr "getresgid" 171
    ∷ nr "prctl" 172
    ∷ nr "rt_sigreturn" 173
    ∷ nr "rt_sigaction" 174
    ∷ nr "rt_sigprocmask" 175
    ∷ nr "rt_sigpending" 176
    ∷ nr "rt_sigtimedwait" 177
    ∷ nr "rt_sigqueueinfo" 178
    ∷ nr "rt_sigsuspend" 179
    ∷ nr "pread64" 180
    ∷ nr "pwrite64" 181
    ∷ nr "chown" 182
    ∷ nr "getcwd" 183
    ∷ nr "capget" 184
    ∷ nr "capset" 185
    ∷ nr "sigaltstack" 186
    ∷ nr "sendfile" 187
    ∷ nr "getpmsg" 188
    ∷ nr "putpmsg" 189
    ∷ nr "vfork" 190
    ∷ nr "ugetrlimit" 191
    ∷ nr "mmap2" 192
    ∷ nr "truncate64" 193
    ∷ nr "ftruncate64" 194
    ∷ nr "stat64" 195
    ∷ nr "lstat64" 196
    ∷ nr "fstat64" 197
    ∷ nr "lchown32" 198
    ∷ nr "getuid32" 199
    ∷ nr "getgid32" 200
    ∷ nr "geteuid32" 201
    ∷ nr "getegid32" 202
    ∷ nr "setreuid32" 203
    ∷ nr "setregid32" 204
    ∷ nr "getgroups32" 205
    ∷ nr "setgroups32" 206
    ∷ nr "fchown32" 207
    ∷ nr "setresuid32" 208
    ∷ nr "getresuid32" 209
    ∷ nr "setresgid32" 210
    ∷ nr "getresgid32" 211
    ∷ nr "chown32" 212
    ∷ nr "setuid32" 213
    ∷ nr "setgid32" 214
    ∷ nr "setfsuid32" 215
    ∷ nr "setfsgid32" 216
    ∷ nr "pivot_root" 217
    ∷ nr "mincore" 218
    ∷ nr "madvise" 219
    ∷ nr "madvise1" 219
    ∷ nr "getdents64" 220
    ∷ nr "fcntl64" 221
    ∷ nr "gettid" 224
    ∷ nr "readahead" 225
    ∷ nr "setxattr" 226
    ∷ nr "lsetxattr" 227
    ∷ nr "fsetxattr" 228
    ∷ nr "getxattr" 229
    ∷ nr "lgetxattr" 230
    ∷ []
