-- ===== src/Shell/Arguments/Freed.antt =====
-- What the shell frees at the end of its input (Assignment1/mysh.c).
use cs.Prelude.{
  ℕ, zero, suc, ◌+◌, ◌≤◌, ◌<◌, ◌≡◌, refl, ap, ◌∙◌, Option, some, List, [], ◌∷◌, arith,
  if◌then◌else◌, leb, ltb, ◌&&◌,
}
use cs.Shell.Text.{Text}
use cs.Shell.Parse.{size, Parsed, parse_arguments}
use cs.Shell.Arguments.{
  Pointer, block, in_command, put, alloc_loop, start_shell, check_login, started, store_loop,
  store_parsed, store_args, Release, released, invalid_free, free_one, free_loop, end_shell,
}

store_loop-before :
    (l : List Text) (j : ℕ) (a : ℕ → Pointer) (i : ℕ) → i < j → store_loop l j a i ≡ a i
unfolding store_loop
store_loop-before [] j a i h = ground arith
store_loop-before (t ∷ l) j a i h =
    store_loop-before l (j + 1) (put a j (in_command t)) i (omega arith) ∙ ground arith

-- At the end of the input, behind a line with an argument, the shell gives `free` a place within
-- its buffer `command`.
pub end_shell-invalid :
    (line : Text) (args history : ℕ → Pointer) (p : Parsed) (t : Text) (rest : List Text)
    → parse_arguments line ≡ some p
    → p.args ≡ t ∷ rest
    → (args' : ℕ → Pointer) × (store_args line args ≡ some args')
      × (end_shell args' history ≡ invalid_free)
unfolding store_args store_parsed end_shell free_loop
end_shell-invalid line args history p t rest e f =
    let args' = store_loop p.args 0 (put args 0 (in_command line)) in
    let first : args' 0 ≡ in_command t =
      ap (λ l. store_loop l 0 (put args 0 (in_command line)) 0) f
      ∙ store_loop-before rest 1 (put (put args 0 (in_command line)) 0 (in_command t)) 0
          (omega arith) in
    (args', rw (e, store_parsed), rw (first, free_one))

alloc_loop-at :
    (rounds i : ℕ) (a : ℕ → Pointer) (j : ℕ)
    → alloc_loop rounds i a j ≡ (if leb i j && ltb j (i + rounds) then block j else a j)
unfolding alloc_loop
alloc_loop-at zero i a j = ground arith
alloc_loop-at (suc rounds) i a j =
    ground (arith, alloc_loop-at rounds (i + 1) (put a i (block i)) j)

free_loop-block :
    (rounds i : ℕ) (a : ℕ → Pointer) (rest : Release)
    → ((j : ℕ) → i ≤ j → j < i + rounds → a j ≡ block j)
    → free_loop rounds i a rest ≡ rest
unfolding free_loop free_one
free_loop-block zero i a rest h = refl
free_loop-block (suc rounds) i a rest h =
    rw (h i (omega arith) (omega arith))
      (free_loop-block rounds (i + 1) a rest (λ j x y. h j (omega arith) (omega arith)))

-- With room for the login name the shell starts, with or without room for the directory; if its
-- input ends at once, it frees its own blocks and nothing else.
pub start_shell-released :
    (junk : ℕ → Pointer) (login : ℕ) (directory : Option ℕ)
    → (args history : ℕ → Pointer) × (start_shell junk (some login) directory
        ≡ started args history (some login) directory)
      × (end_shell args history ≡ released)
unfolding start_shell check_login end_shell
start_shell-released junk login directory =
    let a = alloc_loop size 0 junk in
    let own : (j : ℕ) → 0 ≤ j → j < 0 + size → a j ≡ block j =
      λ j x y. alloc_loop-at size 0 junk j ∙ ground arith in
    (
      a,
      a,
      refl,
      free_loop-block size 0 a (free_loop size 0 a released) own
          ∙ free_loop-block size 0 a released own,
    )
