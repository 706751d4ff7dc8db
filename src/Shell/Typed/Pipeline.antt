-- ===== src/Shell/Typed/Pipeline.antt =====
-- A pipeline that is typed (Assignment1/mysh.c).
use cs.Prelude.{ℕ, ◌*◌, ◌≤◌, ◌<◌, ◌≡◌, ◌∙◌, true, some, List, ◌∷◌, All, length, arith}
use cs.Shell.Text.{Text}
use cs.Shell.Parse.{size}
use cs.Shell.Parse.Words.{Line}
use cs.Shell.Parse.Result.{Fits, plain_words}
use cs.Shell.Pipe.Stages.{IsStage, joined}
use cs.Shell.Redirect.Files.{Table}
use cs.Shell.Spawn.{Exec}
use cs.Shell.Spawn.Wired.{IsFresh, NoFailure, Wired}
use cs.Shell.Child.{Kernel, look_up}
use cs.Shell.Child.Piped.{IsOperand, child_part-Wired}
use cs.Shell.Round.{Results, in_child, Shell, Round, shell_round}
use cs.Shell.Round.Behaviour.{is_external}
use cs.Shell.Typed.{Leftover, child_round}
use cs.Shell.Typed.Forked.{variables, typed_child}

-- Let the words of a line that fits the buffer, other than `SIZE - 1` delimiters, but for
-- `mytime` and `&`, be the stages `s` and `rest` with bars between them: none is empty, none
-- holds a redirection, and the first word is not `exit` or `cd`. Then the child of the round,
-- where no `fork` fails and each `waitpid` returns, so that what a stage writes has room in its
-- pipe, runs each stage as one command, which reads from the pipe before it and writes to the
-- pipe behind it; the first and the last one have the shell's standard input and output there. A
-- stage `history` prints the commands of the shell, this line among them; one that cannot be run
-- prints that it was not found.
pub typed_pipeline-Wired :
    (k : Kernel) (o : Leftover) (t : Table) (b : Text) (ws s : List Text) (rest : List (List Text))
    (r : Results) (sh : Shell)
    → ((i : ℕ) → IsFresh k.processes.fresh i)
    → NoFailure k.processes
    → ((fd : ℕ) → k.saved ≡ some fd → 2 < fd)
    → Line b ws
    → Fits b
    → plain_words ws ≡ joined s rest
    → is_external (joined s rest) ≡ true
    → All IsStage (s ∷ rest)
    → All IsOperand (joined s rest)
    → r.forked ≡ in_child
    → (q : Round) × (l : List Exec) × (shell_round r (some b) sh ≡ some q)
      × (child_round k o t q ≡ some l)
      × Wired (look_up k (variables b sh o)) 0 (t 0) (t 1) s rest l
typed_pipeline-Wired k o t b ws s rest r sh new works saved line short words external stages plain
      forked =
    let (q, round, child, few) =
      typed_child k o t b ws r sh line short (rw words external) forked in
    let few' : 2 * length (joined s rest) ≤ size = rw words at few in
    let (l, runs, wired) =
      child_part-Wired k t s rest (variables b sh o) o.junk new works saved stages plain
        (omega arith) in
    (q, l, round, child ∙ rw words runs, wired)
