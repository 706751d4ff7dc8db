-- ===== src/Shell/Typed/Redirected.antt =====
-- A command with redirections that is typed (Assignment1/mysh.c).
use cs.Prelude.{◌*◌, ◌≤◌, ◌≡◌, ◌∙◌, true, some, List, [], ◌∷◌, All, length, arith}
use cs.Shell.Text.{Text, codes}
use cs.Shell.Parse.{size}
use cs.Shell.Parse.Words.{Line}
use cs.Shell.Parse.Result.{Fits, plain_words}
use cs.Shell.Redirect.{read, create, append}
use cs.Shell.Redirect.Files.{Table}
use cs.Shell.Redirect.Command.{Item, flat, words}
use cs.Shell.Spawn.{program}
use cs.Shell.Child.{Kernel}
use cs.Shell.Child.LastFile.{IsPlain, last_file}
use cs.Shell.Child.Redirected.{
  target, opened_file, AreBeyond, has_redirection, child_part-redirected,
}
use cs.Shell.Round.{Results, in_child, Shell, Round, shell_round}
use cs.Shell.Round.Behaviour.{is_external}
use cs.Shell.Typed.{Leftover, child_round}
use cs.Shell.Typed.Forked.{variables, typed_child}

-- Let the words of a line that fits the buffer, other than `SIZE - 1` delimiters, but for
-- `mytime` and `&`, be those of a command `x`, `l` with at least one redirection, and the first
-- one not `exit` or `cd`. Where the program can be run, the child of the round runs it once, with
-- its words as arguments: standard input leads to the last file behind `<`, standard output to
-- the last one behind `>>`, or else to the last one behind `>`; where there is none they are the
-- shell's. An operator whose file is not opened has no effect.
pub typed_command-redirected :
    (k : Kernel) (o : Leftover) (t : Table) (b : Text) (ws : List Text) (x : Item) (l : List Item)
    (r : Results) (sh : Shell)
    → AreBeyond k
    → Line b ws
    → Fits b
    → plain_words ws ≡ flat (x ∷ l)
    → is_external (flat (x ∷ l)) ≡ true
    → All IsPlain (x ∷ l)
    → has_redirection (x ∷ l) ≡ true
    → k.exec_ok (words (x ∷ l)) ≡ true
    → r.forked ≡ in_child
    → (q : Round) × (files : Table) × (shell_round r (some b) sh ≡ some q)
      × (child_round k o t q ≡ some (record { runs = program (words (x ∷ l)); table = files } ∷ []))
      × (files 0 ≡ target read (opened_file k.fd0 (last_file (codes "<") (x ∷ l))) (t 0))
      × (files 1
          ≡ target append
              (opened_file k.fd2 (last_file (codes ">>") (x ∷ l)))
              (target create (opened_file k.fd1 (last_file (codes ">") (x ∷ l))) (t 1)))
typed_command-redirected k o t b ws x l r sh beyond line short same external plain redirects runs
      forked =
    let (q, round, child, few) = typed_child k o t b ws r sh line short (rw same external) forked in
    let few' : 2 * length (flat (x ∷ l)) ≤ size = rw same at few in
    let (files, ran, input, output) =
      child_part-redirected k x l o.junk (variables b sh o) t beyond plain (omega arith) redirects
        runs in
    (q, files, round, child ∙ rw same ran, input, output)
