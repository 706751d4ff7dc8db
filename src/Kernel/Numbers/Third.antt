-- ===== src/Kernel/Numbers/Third.antt =====
-- Part of the numbers of the system calls
-- (Assignment3/linux-2.6.38.1/arch/x86/include/asm/unistd_32.h).
use cs.Prelude.{ℕ, ◌+◌, List, [], ◌∷◌}
use cs.Kernel.Numbers.Format.{CallNumber, nr}

abbrev timer_create : ℕ
timer_create = 259

abbrev mq_open : ℕ
mq_open = 277

unfoldable pub third_numbers : List CallNumber
third_numbers =
    nr "fgetxattr" 231
    ∷ nr "listxattr" 232
    ∷ nr "llistxattr" 233
    ∷ nr "flistxattr" 234
    ∷ nr "removexattr" 235
    ∷ nr "lremovexattr" 236
    ∷ nr "fremovexattr" 237
    ∷ nr "tkill" 238
    ∷ nr "sendfile64" 239
    ∷ nr "futex" 240
    ∷ nr "sched_setaffinity" 241
    ∷ nr "sched_getaffinity" 242
    ∷ nr "set_thread_area" 243
    ∷ nr "get_thread_area" 244
    ∷ nr "io_setup" 245
    ∷ nr "io_destroy" 246
    ∷ nr "io_getevents" 247
    ∷ nr "io_submit" 248
    ∷ nr "io_cancel" 249
    ∷ nr "fadvise64" 250
    ∷ nr "exit_group" 252
    ∷ nr "lookup_dcookie" 253
    ∷ nr "epoll_create" 254
    ∷ nr "epoll_ctl" 255
    ∷ nr "epoll_wait" 256
    ∷ nr "remap_file_pages" 257
    ∷ nr "set_tid_address" 258
    ∷ nr "timer_create" 259
    ∷ nr "timer_settime" (timer_create + 1)
    ∷ nr "timer_gettime" (timer_create + 2)
    ∷ nr "timer_getoverrun" (timer_create + 3)
    ∷ nr "timer_delete" (timer_create + 4)
    ∷ nr "clock_settime" (timer_create + 5)
    ∷ nr "clock_gettime" (timer_create + 6)
    ∷ nr "clock_getres" (timer_create + 7)
    ∷ nr "clock_nanosleep" (timer_create + 8)
    ∷ nr "statfs64" 268
    ∷ nr "fstatfs64" 269
    ∷ nr "tgkill" 270
    ∷ nr "utimes" 271
    ∷ nr "fadvise64_64" 272
    ∷ nr "vserver" 273
    ∷ nr "mbind" 274
    ∷ nr "get_mempolicy" 275
    ∷ nr "set_mempolicy" 276
    ∷ nr "mq_open" 277
    ∷ nr "mq_unlink" (mq_open + 1)
    ∷ nr "mq_timedsend" (mq_open + 2)
    ∷ nr "mq_timedreceive" (mq_open + 3)
    ∷ nr "mq_notify" (mq_open + 4)
    ∷ nr "mq_getsetattr" (mq_open + 5)
    ∷ nr "kexec_load" 283
    ∷ nr "waitid" 284
    ∷ nr "add_key" 286
    ∷ nr "request_key" 287
    ∷ nr "keyctl" 288
    ∷ nr "ioprio_set" 289
    ∷ nr "ioprio_get" 290
    ∷ nr "inotify_init" 291
    ∷ nr "inotify_add_watch" 292
    ∷ nr "inotify_rm_watch" 293
    ∷ nr "migrate_pages" 294
    ∷ nr "openat" 295
    ∷ nr "mkdirat" 296
    ∷ nr "mknodat" 297
    ∷ nr "fchownat" 298
    ∷ nr "futimesat" 299
    ∷ nr "fstatat64" 300
    ∷ nr "unlinkat" 301
    ∷ nr "renameat" 302
    ∷ nr "linkat" 303
    ∷ nr "symlinkat" 304
    ∷ nr "readlinkat" 305
    ∷ nr "fchmodat" 306
    ∷ nr "faccessat" 307
    ∷ nr "pselect6" 308
    ∷ nr "ppoll" 309
    ∷ nr "unshare" 310
    ∷ nr "set_robust_list" 311
    ∷ nr "get_robust_list" 312
    ∷ nr "splice" 313
    ∷ nr "sync_file_range" 314
    ∷ nr "tee" 315
    ∷ nr "vmsplice" 316
    ∷ nr "move_pages" 317
    ∷ nr "getcpu" 318
    ∷ nr "epoll_pwait" 319
    ∷ nr "utimensat" 320
    ∷ nr "signalfd" 321
    ∷ nr "timerfd_create" 322
    ∷ nr "eventfd" 323
    ∷ nr "fallocate" 324
    ∷ nr "timerfd_settime" 325
    ∷ nr "timerfd_gettime" 326
    ∷ nr "signalfd4" 327
    ∷ nr "eventfd2" 328
    ∷ nr "epoll_create1" 329
    ∷ nr "dup3" 330
    ∷ nr "pipe2" 331
    ∷ nr "inotify_init1" 332
    ∷ nr "preadv" 333
    ∷ nr "pwritev" 334
    ∷ nr "rt_tgsigqueueinfo" 335
    ∷ nr "perf_event_open" 336
    ∷ nr "recvmmsg" 337
    ∷ nr "fanotify_init" 338
    ∷ nr "fanotify_mark" 339
    ∷ nr "prlimit64" 340
    ∷ nr "setproclimit" 341
    ∷ nr "getproclimit" 342
    ∷ []
