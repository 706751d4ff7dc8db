-- ===== src/Shell/Redirect/Files.antt =====
-- Where standard input and output lead after `redirections` (Assignment1/mysh.c).
use cs.Prelude.{
  ℕ, ◌+◌, ◌<◌, ◌≡◌, ◌≢◌, refl, ap, ◌∙◌, ◌&&◌, Bool, true, false, Option, none, some, List, [], ◌∷◌,
  ◌++◌, ◌==◌, arith, if◌then◌else◌,
}
use cs.Shell.Text.{Text}
use cs.Shell.Cells.{Cells}
use cs.Shell.Search.{Redirections}
use cs.Shell.Redirect.{
  Mode, Call, open_file, dup2, close, redirect, redirect_calls, read, create, append,
}

-- What a descriptor leads to: the shell's own file of that number, an end of a pipe, or a file
-- that was opened under a name.
pub data End : Type 0 where
  inherited : ℕ → End
  reads : (pipe : ℕ) → End
  writes : (pipe : ℕ) → End
  opened : Mode → (path : Option Text) → End

-- The process's table of open files.
abbrev pub Table : Type 0
Table = ℕ → Option End

abbrev pub assign : Table → ℕ → Option End → Table
assign t fd f k = if k == fd then f else t k

-- The system's part of a call. A call on -1 changes nothing.
unfoldable pub run_call : Call → Table → Table
run_call (open_file m p none) t = t
run_call (open_file m p (some fd)) t = assign t fd (some (opened m p))
run_call (dup2 none target) t = t
run_call (dup2 (some fd) target) t = assign t target (t fd)
run_call (close none) t = t
run_call (close (some fd)) t = assign t fd none

unfoldable pub run_calls : List Call → Table → Table
unfolding run_call
run_calls [] t = t
run_calls (c ∷ l) t = run_calls l (run_call c t)

pub run_calls-append :
    (l m : List Call) (t : Table) → run_calls (l ++ m) t ≡ run_calls m (run_calls l t)
unfolding run_calls
run_calls-append [] m t = refl
run_calls-append (c ∷ l) m t = run_calls-append l m (run_call c t)

-- One block: with a fresh descriptor the target leads to the file, and nothing else changes but
-- that the descriptor is free again.
pub redirect-Table :
    (flag : Bool) (mode : Mode) (args : Cells) (at target fd : ℕ) (t : Table) (k : ℕ)
    → 2 < fd
    → target < 2
    → k ≢ fd
    → run_calls (redirect flag mode args at target (some fd)) t k
      ≡ (if k == target then if flag then some (opened mode (args (at + 1))) else t k else t k)
unfolding redirect run_calls
redirect-Table flag mode args at target fd t k h g ne = ground arith

redirect_calls-at :
    (r : Redirections) (args : Cells) (fd0 fd1 fd2 : ℕ) (t : Table)
    → 2 < fd0
    → 2 < fd1
    → 2 < fd2
    → (k : ℕ) → k ≢ fd0
    → k ≢ fd1
    → k ≢ fd2
    → run_calls (redirect_calls r args (some fd0) (some fd1) (some fd2)) t k ≡ (
        if k == 1
        then if r.append_flag
          then some (opened append (args (r.append_redir + 1)))
          else if r.output
          then some (opened create (args (r.output_redir + 1)))
          else t 1
        else if k == 0
        then if r.input then some (opened read (args (r.input_redir + 1))) else t 0
        else t k)
unfolding redirect_calls
redirect_calls-at r args fd0 fd1 fd2 t h0 h1 h2 k n0 n1 n2 =
    let b0 = redirect r.input read args r.input_redir 0 (some fd0) in
    let b1 = redirect r.output create args r.output_redir 1 (some fd1) in
    let b2 = redirect r.append_flag append args r.append_redir 1 (some fd2) in
    ground (
      arith,
      ap (λ f. f k) (run_calls-append b0 (b1 ++ b2) t),
      ap (λ f. f k) (run_calls-append b1 b2 (run_calls b0 t)),
      redirect-Table r.input read args r.input_redir 0 fd0 t k,
      redirect-Table r.output create args r.output_redir 1 fd1 (run_calls b0 t) k,
      redirect-Table r.append_flag append args r.append_redir 1 fd2 (run_calls b1 (run_calls b0 t))
          k,
    )

-- With fresh descriptors, standard input leads to the file behind `<`, standard output to the file
-- behind `>>`, or else to the one behind `>`, or else they are as before; the other descriptors
-- that were open are as before.
pub redirect_calls-Table :
    (r : Redirections) (args : Cells) (fd0 fd1 fd2 : ℕ) (t : Table)
    → 2 < fd0
    → 2 < fd1
    → 2 < fd2
    → let t' = run_calls (redirect_calls r args (some fd0) (some fd1) (some fd2)) t in
      (t' 0 ≡ (if r.input then some (opened read (args (r.input_redir + 1))) else t 0))
      × (t' 1 ≡ (
          if r.append_flag
          then some (opened append (args (r.append_redir + 1)))
          else if r.output
          then some (opened create (args (r.output_redir + 1)))
          else t 1))
      × ((k : ℕ) → 1 < k → k ≢ fd0 → k ≢ fd1 → k ≢ fd2 → t' k ≡ t k)
redirect_calls-Table r args fd0 fd1 fd2 t h0 h1 h2 =
    let at = redirect_calls-at r args fd0 fd1 fd2 t h0 h1 h2 in
    (
      at 0 (omega arith) (omega arith) (omega arith),
      ground (arith, at 1),
      λ k gt n0 n1 n2. ground (arith, at k),
    )

abbrev pub is_some : Option ℕ → Bool
is_some none = false
is_some (some fd) = true

-- The descriptor is beyond standard error, if there is one.
abbrev pub IsBeyond : Option ℕ → Type 0
IsBeyond o = (fd : ℕ) → o ≡ some fd → 2 < fd

redirect-target :
    (flag : Bool) (mode : Mode) (args : Cells) (at target : ℕ) (o : Option ℕ) (t : Table) (k : ℕ)
    → IsBeyond o
    → target < 2
    → k < 2
    → run_calls (redirect flag mode args at target o) t k
      ≡ (if (k == target) && flag && is_some o then some (opened mode (args (at + 1))) else t k)
unfolding redirect run_calls
redirect-target flag mode args at target none t k h g lt = ground arith
redirect-target flag mode args at target (some fd) t k h g lt =
    let above = h fd refl in
    redirect-Table flag mode args at target fd t k above g (omega arith) ∙ ground arith

-- Standard input and output, whether the files are opened or not: an operator whose file is not
-- opened has no effect.
pub redirect_calls-targets :
    (r : Redirections) (args : Cells) (o0 o1 o2 : Option ℕ) (t : Table)
    → IsBeyond o0
    → IsBeyond o1
    → IsBeyond o2
    → let t' = run_calls (redirect_calls r args o0 o1 o2) t in
      (t' 0
        ≡ (if r.input && is_some o0 then some (opened read (args (r.input_redir + 1))) else t 0))
      × (t' 1 ≡ (
          if r.append_flag && is_some o2
          then some (opened append (args (r.append_redir + 1)))
          else if r.output && is_some o1
          then some (opened create (args (r.output_redir + 1)))
          else t 1))
unfolding redirect_calls
redirect_calls-targets r args o0 o1 o2 t h0 h1 h2 =
    let b0 = redirect r.input read args r.input_redir 0 o0 in
    let b1 = redirect r.output create args r.output_redir 1 o1 in
    let b2 = redirect r.append_flag append args r.append_redir 1 o2 in
    let joined = run_calls-append b0 (b1 ++ b2) t ∙ run_calls-append b1 b2 (run_calls b0 t) in
    let at0 = redirect-target r.input read args r.input_redir 0 o0 t in
    let at1 = redirect-target r.output create args r.output_redir 1 o1 (run_calls b0 t) in
    let at2 =
      redirect-target r.append_flag append args r.append_redir 1 o2
        (run_calls b1 (run_calls b0 t)) in
    (
      ap (λ f. f 0) joined
          ∙ at2 0 h2 (omega arith) (omega arith)
          ∙ at1 0 h1 (omega arith) (omega arith)
          ∙ at0 0 h0 (omega arith) (omega arith),
      ap (λ f. f 1) joined
          ∙ ground (
            arith,
            at2 1 h2 (omega arith) (omega arith),
            at1 1 h1 (omega arith) (omega arith),
            at0 1 h0 (omega arith) (omega arith),
          ),
    )
