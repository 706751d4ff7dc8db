-- ===== src/Shell/Typed/NotFound.antt =====
-- A command with redirections, typed, that is not found (Assignment1/mysh.c).
use cs.Prelude.{◌*◌, ◌≤◌, ◌≡◌, ◌∙◌, true, false, some, List, [], ◌∷◌, All, length, arith}
use cs.Shell.Text.{Text, codes, text_eq}
use cs.Shell.Parse.{size}
use cs.Shell.Parse.Words.{Line}
use cs.Shell.Parse.Result.{Fits, plain_words}
use cs.Shell.Pipe.Stages.{NoBar}
use cs.Shell.Redirect.{create, append}
use cs.Shell.Redirect.Files.{Table}
use cs.Shell.Redirect.Command.{Item, word, flat}
use cs.Shell.Spawn.{Exec, not_found}
use cs.Shell.Child.{Kernel}
use cs.Shell.Child.LastFile.{IsPlain, last_file}
use cs.Shell.Child.Redirected.{target, opened_file, AreBeyond, has_redirection}
use cs.Shell.Child.Alone.{child_part-not_found}
use cs.Shell.Round.{Results, in_child, Shell, Round, shell_round}
use cs.Shell.Round.Behaviour.{is_external}
use cs.Shell.Typed.{Leftover, child_round}
use cs.Shell.Typed.Forked.{variables, typed_child}

-- Let the words of a line that fits the buffer, other than `SIZE - 1` delimiters, but for
-- `mytime` and `&`, be `w` and what stands behind it, with at least one redirection and no bar,
-- where `w` is not `history`, `exit` or `cd`. Where no program can be run by the name `w`, the
-- child of the round prints that `w` was not found: to the last file behind `>>`, or else to the
-- last one behind `>`, or else to the shell's standard output. An operator whose file is not
-- opened has no effect.
pub typed_command-not_found :
    (k : Kernel) (o : Leftover) (t : Table) (b : Text) (ws : List Text) (w : Text) (l : List Item)
    (r : Results) (sh : Shell)
    → AreBeyond k
    → Line b ws
    → Fits b
    → plain_words ws ≡ flat (word w ∷ l)
    → is_external (flat (word w ∷ l)) ≡ true
    → All IsPlain (word w ∷ l)
    → All NoBar (flat (word w ∷ l))
    → has_redirection l ≡ true
    → text_eq w (codes "history") ≡ false
    → ((args : List Text) → k.exec_ok (w ∷ args) ≡ false)
    → r.forked ≡ in_child
    → (q : Round) × (x : Exec) × (shell_round r (some b) sh ≡ some q)
      × (child_round k o t q ≡ some (x ∷ []))
      × (x.runs ≡ not_found w)
      × (x.table 1
          ≡ target append
              (opened_file k.fd2 (last_file (codes ">>") l))
              (target create (opened_file k.fd1 (last_file (codes ">") l)) (t 1)))
typed_command-not_found k o t b ws w l r sh beyond line short same external plain bars redirects
      other fails forked =
    let (q, round, child, few) = typed_child k o t b ws r sh line short (rw same external) forked in
    let few' : 2 * length (flat (word w ∷ l)) ≤ size = rw same at few in
    let (x, ran, runs, out) =
      child_part-not_found k w l o.junk (variables b sh o) t beyond plain bars (omega arith)
        redirects other fails in
    (q, x, round, child ∙ rw same ran, runs, out)
