-- ===== src/Shell/Arguments.antt =====
-- What the shell allocates before its loop and frees behind it, and what it prints of its
-- arguments and its prompt (`main`, `type_prompt` and `printArgs` of Assignment1/mysh.c).
pub mod Freed
pub mod Printed
use cs.Prelude.{
  ℕ, zero, suc, ◌+◌, Bool, true, false, Option, none, some, List, [], ◌∷◌, ◌++◌, if◌then◌else◌,
  ◌==◌,
}
use cs.Shell.Text.{Text, codes}
use cs.Shell.Cells.{Cells}
use cs.Shell.Parse.{size, Parsed, parse_arguments}

-- What a cell of `args` or of `commandHistory` points to: a block of its own from `calloc`, a
-- place in the buffer `command`, or nothing.
pub data Pointer : Type 0 where
  block : ℕ → Pointer
  in_command : Text → Pointer
  null : Pointer

abbrev pub put : (ℕ → Pointer) → ℕ → Pointer → ℕ → Pointer
put a i p j = if i == j then p else a j

-- The loop of `calloc`s.
unfoldable pub alloc_loop : (rounds i : ℕ) → (ℕ → Pointer) → ℕ → Pointer
alloc_loop zero i a = a
alloc_loop (suc rounds) i a = alloc_loop rounds (i + 1) (put a i (block i))

-- The four blocks of the start; `stopped` is the exit with a message. The second test asks for
-- `loginName` again.
pub data Started : Type 0 where
  started : (args history : ℕ → Pointer) (login directory : Option ℕ) → Started
  stopped : Text → Started

unfoldable pub check_login : Option ℕ → Started → Started
check_login none next = stopped (codes "Can't allocate memory")
check_login (some p) next = next

unfoldable pub start_shell : (junk : ℕ → Pointer) (login directory : Option ℕ) → Started
unfolding check_login alloc_loop
start_shell junk login directory =
    check_login login (
      check_login login (started (alloc_loop size 0 junk) (alloc_loop size 0 junk) login directory))

-- What `parseArguments` writes to `args`: the buffer first, then each argument, then NULL.
unfoldable pub store_loop : List Text → (j : ℕ) → (ℕ → Pointer) → ℕ → Pointer
store_loop [] j a = put a j null
store_loop (t ∷ rest) j a = store_loop rest (j + 1) (put a j (in_command t))

unfoldable pub store_parsed : Text → Option Parsed → (ℕ → Pointer) → Option (ℕ → Pointer)
unfolding store_loop
store_parsed line none a = none
store_parsed line (some p) a = some (store_loop p.args 0 (put a 0 (in_command line)))

unfoldable pub store_args : Text → (ℕ → Pointer) → Option (ℕ → Pointer)
unfolding store_parsed
store_args line a = store_parsed line (parse_arguments line) a

-- The loops of `free`: `free` of a place within a buffer is an error of memory.
pub data Release : Type 0 where
  released : Release
  invalid_free : Release

unfoldable pub free_one : Pointer → Release → Release
free_one (block i) rest = rest
free_one (in_command t) rest = invalid_free
free_one null rest = rest

unfoldable pub free_loop : (rounds i : ℕ) → (ℕ → Pointer) → Release → Release
unfolding free_one
free_loop zero i a rest = rest
free_loop (suc rounds) i a rest = free_one (a i) (free_loop rounds (i + 1) a rest)

-- Behind the loop of `main`.
unfoldable pub end_shell : (args history : ℕ → Pointer) → Release
unfolding free_loop
end_shell args history = free_loop size 0 args (free_loop size 0 history released)

-- The prompt; `getlogin` may return NULL.
unfoldable pub type_prompt : Option Text → Text → Text
type_prompt none directory = codes "(null)@mysh:" ++ (directory ++ codes "/ ")
type_prompt (some login) directory = login ++ (codes "@mysh:" ++ (directory ++ codes "/ "))

-- `printArgs`, up to NULL.
unfoldable pub print_args : (rounds i : ℕ) → Cells → List (ℕ × Text)
print_args zero i args = []
print_args (suc rounds) i args = elim (args i) [
  | none ↦ []
  | some t ↦ (i, t) ∷ print_args rounds (i + 1) args
]
