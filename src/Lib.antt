-- ===== src/Lib.antt =====
-- The three assignments of CS345 (operating systems): a shell, a game in which a client guesses a
-- server's secret string with many threads, and two system calls added to Linux 2.6.38.1.
--
-- Shell (Assignment1/mysh.c). Text holds C strings as lists of bytes. Parse is `parseArguments`
-- with `strsep`; Parse/Words gives the words of a line as a relation. Cells is the array `args`:
-- the arguments, NULL, and behind it whatever earlier commands have left, which is a parameter.
-- Search is `searchForRedirection` and `searchForPipe`, Redirect is `redirections`: its calls on
-- files and the loop that copies the arguments. Pipe is `nextArg` with its calls for the stages
-- of a pipeline, History the store in `main` and the loop of `printHistory`. Spawn is the child
-- that runs a pipeline, with `spawn_proc`: the commands that are run and where their descriptors
-- lead; what `pipe`, `fork` and `waitpid` return is a parameter, where a `waitpid` that never
-- returns, since its stage has filled the pipe, counts as one that fails; `dup2` succeeds there.
-- In a pipeline `history` prints the commands of the shell, by `spawn_proc` in an earlier stage
-- and by `printHistory` in the last one. Child joins redirections and pipeline as the child of
-- `main` does, and Typed goes from the line that is typed through the round, or through a whole
-- session, to the commands that run. Round is one round of the loop of `main` with parameters for
-- what `chdir`, `fork` and `waitpid` return, and Round/Session the loop over a whole input. The
-- counter `historyArg` is a number without overflow. Loops over `args` have the `SIZE` rounds of
-- the source or fuel for `SIZE` steps, and the theorems suppose fewer than `SIZE` arguments,
-- which holds since `fgets` reads fewer than `SIZE` bytes; the first loop of `parseArguments` has
-- fuel for the bytes of the line and two more rounds, which suffices for every line. Empty tokens
-- take cells of `buf_args` as in the source, and a line of `SIZE - 1` delimiters fills all cells,
-- so that none is left for NULL: `Fits` excludes it, and `shell_round` returns `none` for it.
-- ShowHistory is `printHistory` with its redirections, for a standard output that is buffered by
-- lines, or in full with room for all that is printed; what the shell itself has left in the
-- buffer at a `fork` is left out. Handlers is the two handlers of signals, and Arguments what
-- `main` allocates and, behind its loop, frees, with what `parseArguments` writes to the cells of
-- `args`, `type_prompt` and `printArgs`. Times is `timeCounter` and `printTime` with the readings
-- of the clocks as parameters; so are the operations of `double`, and that differences of
-- integers below 2 ^ 53 are exact.
--
-- Guess (Assignment2/server.c and Assignment2/client.c). Range is the division of the string
-- among the threads, Memory the three segments of shared memory, and Server and Client the
-- functions `threadManipul` of the two programs, as step functions that touch one cell of shared
-- memory at a time. System interleaves the threads in any order. A thread is named by the number
-- that it draws under the mutex; the block under the mutex is one step. Characters are bytes.
-- Invariant holds what is true of each pair of threads in every reachable state, Exact that no
-- guess passes its letter, and Ends a number for each state that falls with every step; Won joins
-- these over the string and the segments of any round of the server. Setup is what the two `main`
-- functions do before and after the threads, with `createString` and the three functions that
-- create segments, and the loop of the server over its clients: what the calls of the system
-- return is a parameter (`Os`, `Calls`), a number of threads is not negative, a string of letters
-- or a `recv` comes whole, and the loop that looks for a key has fuel, which the theorems suppose
-- enough for a key that `shmget` accepts. `shmget` may return one segment for the guesses and the
-- answers, since the server calls it without `IPC_EXCL` there: `create_game` has what the first
-- one holds then, and `round_memory` is `none`, since the step functions keep the two apart. With
-- `IPC_EXCL` it returns a new segment, which is a hypothesis.
--
-- Kernel (Assignment3/linux-2.6.38.1). Task is the part of `struct task_struct` that the two
-- calls use, in a store of tasks by address, with `for_each_process` as a walk over a list.
-- SetLimit is kernel/setproclimit.c: the recursion over the children has fuel for the depth of
-- the tree, and the theorems suppose a tree that is less deep. GetLimit is kernel/getproclimit.c:
-- the conversion of clock ticks, the check of a pointer and the copies to and from user space are
-- parameters (`UserAccess`); the round trip supposes that a copy that missed nothing is read
-- back. `unsigned long` has 32 bits. RoundTrip joins the two calls, Calls has any number of calls
-- by several processes over a fixed tree of processes, and Lifetime follows the limits from
-- `INIT_TASK` on, with what `fork` and the rest of the kernel do as hypotheses. Each call of the
-- two system calls is one indivisible step, though the source takes no lock: calls that run at
-- once on several processors are not modelled. The messages of `printk` are left out. Numbers
-- holds the lines of arch/x86/include/asm/unistd_32.h, Table the entries of
-- arch/x86/kernel/syscall_table_32.S, and Syscalls compares them. Programs has the macros of
-- Assignment3/proclimit.h with Assignment3/test1.c and test3.c over both system calls; that the
-- kernel runs the function which the table names at a number is a hypothesis (`Dispatches`), and
-- `malloc`, `atoi` and what happens during a loop or a sleep are parameters.
--
-- Not modelled: the elapsed time that server and client print; the test program that only prints
-- around its forks; the build and the declarations of Linux.
pub mod Prelude
pub mod Kernel
pub mod Guess
pub mod Shell
