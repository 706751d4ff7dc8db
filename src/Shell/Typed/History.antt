-- ===== src/Shell/Typed/History.antt =====
-- The command `history` with redirections, typed (Assignment1/mysh.c).
use cs.Prelude.{ℕ, ◌*◌, ◌≤◌, ◌≡◌, refl, ◌∙◌, true, false, some, List, [], ◌∷◌, All, length, arith}
use cs.Shell.Text.{Text, codes}
use cs.Shell.Parse.{size}
use cs.Shell.Parse.Words.{Line}
use cs.Shell.Parse.Result.{Fits, plain_words}
use cs.Shell.Pipe.Stages.{NoBar}
use cs.Shell.Redirect.{create, append, append_or_create}
use cs.Shell.Redirect.Files.{Table}
use cs.Shell.Redirect.Command.{Item, flat, words}
use cs.Shell.History.{remember, print_history}
use cs.Shell.ShowHistory.Restored.{AreNew, destination}
use cs.Shell.Spawn.{Exec, prints}
use cs.Shell.Child.{Kernel}
use cs.Shell.Child.LastFile.{IsPlain, last_file}
use cs.Shell.Child.Redirected.{target, AreBeyond, has_redirection}
use cs.Shell.Child.History.{history, child_part-history}
use cs.Shell.Round.{Results, in_child, Shell, Round, shell_round}
use cs.Shell.Typed.{Leftover, child_round}
use cs.Shell.Typed.Forked.{variables, typed_child}

-- `redirections` opens the files for the output.
pub record Opens (k : Kernel) (fd1 fd2 : ℕ) : Type 0 where
  pub beyond : AreBeyond k
  pub output : k.fd1 ≡ some fd1
  pub append : k.fd2 ≡ some fd2

-- The descriptors that `dup`, `creat` and `open` return in `printHistory` are new.
pub record Reopens (k : Kernel) (saved fd1 fd2 : ℕ) : Type 0 where
  pub new : AreNew saved fd1 fd2
  pub copy : k.saved ≡ some saved
  pub output : k.history_fd1 ≡ some fd1
  pub append : k.history_fd2 ≡ some fd2

-- Let the words of a line that fits the buffer, other than `SIZE - 1` delimiters, but for
-- `mytime` and `&`, be `history` and what stands behind it, with at least one redirection and no
-- bar. Where the files for the output are opened, and no program can be run as `history`, the
-- child of the round prints the commands of the shell, this line among them: to the last file
-- behind `>>`, or else to the last one behind `>`, or else to the shell's standard output. With a
-- buffer that is written at the end of the process, the file is the one that `redirections` has
-- opened, and not that of `printHistory`.
pub typed_history :
    (k : Kernel) (o : Leftover) (t : Table) (b : Text) (ws : List Text) (l : List Item)
    (r : Results) (sh : Shell) (fd1 fd2 saved history_fd1 history_fd2 : ℕ)
    → Opens k fd1 fd2
    → Reopens k saved history_fd1 history_fd2
    → Line b ws
    → Fits b
    → plain_words ws ≡ flat (history ∷ l)
    → All IsPlain l
    → All NoBar (flat l)
    → has_redirection l ≡ true
    → k.exec_ok (words (history ∷ l)) ≡ false
    → r.forked ≡ in_child
    → (q : Round) × (x : Exec) × (shell_round r (some b) sh ≡ some q)
      × (child_round k o t q ≡ some (x ∷ []))
      × (x.runs ≡ prints (print_history size 0 (remember b sh.history).cell))
      × (x.table 1
          ≡ destination k.buffering
              (target append_or_create
                (last_file (codes ">>") l)
                (target create (last_file (codes ">") l) (t 1)))
              (target append
                (last_file (codes ">>") l)
                (target create (last_file (codes ">") l) (t 1))))
typed_history k o t b ws l r sh fd1 fd2 saved h1 h2 opens reopens line short same plain bars
      redirects fails forked =
    let (q, round, child, few) = typed_child k o t b ws r sh line short (rw same refl) forked in
    let few' : 2 * length (flat (history ∷ l)) ≤ size = rw same at few in
    let (x, ran, runs, out) =
      child_part-history k l o.junk (variables b sh o) t fd1 fd2 saved h1 h2 opens.beyond
        opens.output opens.append reopens.new reopens.copy reopens.output reopens.append plain bars
        (omega arith) redirects fails in
    (q, x, round, child ∙ rw same ran, runs, out)
