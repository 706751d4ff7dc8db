-- ===== src/Shell/Child/Piped.antt =====
-- A pipeline without redirections in the child of the shell (Assignment1/mysh.c).
use cs.Prelude.{
  ℕ, zero, suc, ◌<◌, ◌≡◌, refl, Bool, true, false, some, List, [], ◌∷◌, All, length, get_elem?,
  arith,
}
use cs.Shell.Text.{Text, codes}
use cs.Shell.Cells.{Cells, cells}
use cs.Shell.Parse.{size}
use cs.Shell.Search.{Redirections, search_for_redirection}
use cs.Shell.Search.Found.{
  Located, no_redirections, search_for_redirection-Located, search_for_pipe_lem,
}
use cs.Shell.Pipe.Stages.{IsStage, joined}
use cs.Shell.Redirect.{is_operator}
use cs.Shell.Redirect.Files.{Table}
use cs.Shell.Spawn.{Exec}
use cs.Shell.Spawn.Asked.{IsPlainPrinting}
use cs.Shell.Spawn.Wired.{IsFresh, NoFailure, Wired, pipeline-Wired}
use cs.Shell.Child.{Kernel, Variables, look_up, printing, is_redirected, pipeline, child_part}
use cs.Shell.Child.LastFile.{not_operator}

-- No argument is an operator of a redirection.
abbrev pub IsOperand : Text → Type 0
IsOperand t = is_operator t ≡ false

no_place :
    (op : Text) (l : List Text) (j : ℕ)
    → All IsOperand l
    → is_operator op ≡ true
    → get_elem? l j ≡ some op
    → ⊥
no_place op [] j ok g e = cc e
no_place op (t ∷ l) zero ok g e = not_operator t op ok.0 g e
no_place op (t ∷ l) (suc j) ok g e = no_place op l j ok.1 g e

unset :
    (op : Text) (l : List Text) (flag : Bool) (at : ℕ)
    → All IsOperand l
    → is_operator op ≡ true
    → Located op l flag at
    → flag ≡ false
unset op l true at ok g loc = absurd (no_place op l at ok g (loc.stands refl))
unset op l false at ok g loc = refl

not_redirected :
    (l : List Text) (junk : Cells)
    → All IsOperand l
    → length l < size
    → is_redirected (search_for_redirection size 0 (cells l junk) no_redirections) ≡ false
unfolding is_redirected
not_redirected l junk ok h =
    let (i, o, a) = search_for_redirection-Located l junk h in
    let r = search_for_redirection size 0 (cells l junk) no_redirections in
    ground (
      arith,
      unset (codes "<") l r.input r.input_redir ok refl i,
      unset (codes ">") l r.output r.output_redir ok refl o,
      unset (codes ">>") l r.append_flag r.append_redir ok refl a,
    )

printing-IsPlain :
    (k : Kernel) (v : Variables) (r : Redirections)
    → is_redirected r ≡ false
    → ((fd : ℕ) → k.saved ≡ some fd → 2 < fd)
    → IsPlainPrinting (printing k v r)
unfolding is_redirected printing
printing-IsPlain k v r e new = record {
  no_output = ground arith;
  no_append = ground arith;
  new_saved = new;
}

-- In the child of the shell, where no call of `fork` or `waitpid` fails, a pipeline of stages that
-- are not empty and hold no redirection runs each stage as one command; it reads from the pipe
-- before it and writes to the pipe behind it, and the first and the last one have the shell's
-- standard input and output there. A stage `history` prints the commands of the shell,
-- and one that cannot be run prints that it was not found.
pub child_part-Wired :
    (k : Kernel) (t : Table) (s : List Text) (rest : List (List Text)) (v : Variables)
    (junk : Cells)
    → ((i : ℕ) → IsFresh k.processes.fresh i)
    → NoFailure k.processes
    → ((fd : ℕ) → k.saved ≡ some fd → 2 < fd)
    → All IsStage (s ∷ rest)
    → All IsOperand (joined s rest)
    → length (joined s rest) < size
    → (l : List Exec) × (child_part k v (cells (joined s rest) junk) t ≡ some l)
      × Wired (look_up k v) 0 (t 0) (t 1) s rest l
unfolding child_part pipeline
child_part-Wired k t s rest v junk new works saved ok plain h =
    let flag = not_redirected (joined s rest) junk plain h in
    let r = search_for_redirection size 0 (cells (joined s rest) junk) no_redirections in
    let (l, e, w) =
      pipeline-Wired k.processes t s rest v.old junk new works (printing k v r)
        (printing-IsPlain k v r flag saved) ok h in
    let count = search_for_pipe_lem (joined s rest) junk h in
    (l, rw flag (rw (count, pipeline) e), unfold printing in w)
