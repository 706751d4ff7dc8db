-- ===== src/Shell/Typed/Session.antt =====
-- The command `history` at the end of a session, from the start of the loop of `main` on
-- (Assignment1/mysh.c).
use cs.Prelude.{
  ℕ, ◌≤◌, ◌≡◌, refl, sym, ap, ◌∙◌, true, false, Option, some, List, [], ◌∷◌, ◌++◌, All, length,
}
use cs.Shell.Text.{Text, codes}
use cs.Shell.Parse.{size, Parsed}
use cs.Shell.Parse.Words.{Line}
use cs.Shell.Parse.Result.{Fits, plain_words}
use cs.Shell.Pipe.Stages.{NoBar}
use cs.Shell.Redirect.{create, append, append_or_create}
use cs.Shell.Redirect.Files.{Table}
use cs.Shell.Redirect.Command.{Item, flat, words}
use cs.Shell.History.{History, no_history, remember, remember_all, print_history}
use cs.Shell.History.Printed.{HasByte, commands, numbered, print_history-commands}
use cs.Shell.ShowHistory.Restored.{destination}
use cs.Shell.Spawn.{Exec, prints}
use cs.Shell.Child.{Kernel}
use cs.Shell.Child.LastFile.{IsPlain, last_file}
use cs.Shell.Child.Redirected.{target, has_redirection}
use cs.Shell.Child.History.{history}
use cs.Shell.Round.{
  Results, in_child, Next, go_on, exit_with, leave_loop, be_child, Shell, Round, shell_round,
}
use cs.Shell.Round.Behaviour.{is_exit, shell_round-Behaves}
use cs.Shell.Round.Session.{main_loop, continue_with, after}
use cs.Shell.Round.Session.Complete.{IsCalm, understood, lines, next_of-calm}
use cs.Shell.Typed.{Leftover, child_round}
use cs.Shell.Typed.Forked.{typed_next}
use cs.Shell.Typed.History.{Opens, Reopens, typed_history}

-- The line is not `exit`.
abbrev pub IsStaying : Results × Text → Type 0
IsStaying (r, line) = is_exit (understood line).args ≡ false

-- The rounds of a session go on with the lines behind it, in a shell that has its lines.
record Continues (l : List (Results × Text)) (s : Shell) : Type 0 where
  shell : Shell
  remembered : shell.history ≡ remember_all (lines l) s.history
  later :
      (m : List (Results × Text)) (q : Round)
      → main_loop m shell ≡ some q
      → (q' : Round) × (main_loop (l ++ m) s ≡ some q') × (q'.next ≡ q.next) × (q'.shell ≡ q.shell)

main_loop-Continues :
    (l : List (Results × Text)) (s : Shell) → All IsCalm l → All IsStaying l → Continues l s
unfolding main_loop continue_with after remember_all
main_loop-Continues [] s calm stay = record {
  shell = s;
  remembered = refl;
  later = λ m q e. (q, e, refl, refl);
}
main_loop-Continues ((r, line) ∷ l) s calm stay =
    let (p, q, e, f, b) = shell_round-Behaves r line s calm.0.0 in
    let same : understood line ≡ p = rw (e, understood) in
    let on : q.next ≡ go_on = b.ended ∙ next_of-calm r line p calm.0 ∙ rw (← same) (rw stay.0) in
    let rest = main_loop-Continues l q.shell calm.1 stay.1 in
    record {
      shell = rest.shell;
      remembered = rest.remembered ∙ ap (remember_all (lines l)) b.remembered;
      later = λ m q1 g.
          let (q2, h, n, w) = rest.later m q1 g in
          (
            record q2 { events = q.events ++ q2.events },
            rw (f, main_loop, on, h, continue_with, after),
            n,
            w,
          );
    }

remember_all-last :
    (l : List Text) (b : Text) (h : History)
    → remember_all (l ++ (b ∷ [])) h ≡ remember b (remember_all l h)
unfolding remember_all
remember_all-last [] b h = refl
remember_all-last (c ∷ l) b h = remember_all-last l b (remember c h)

-- The child has no more of a round than its end and the shell.
child_round-same :
    (k : Kernel) (o : Leftover) (t : Table) (q q' : Round)
    → q'.next ≡ q.next
    → q'.shell ≡ q.shell
    → child_round k o t q' ≡ child_round k o t q
unfolding child_round
child_round-same k o t q q' n w =
    ap (λ x. child_round k o t (record { events = []; next = x; shell = q'.shell })) n
    ∙ ap (λ x. child_round k o t (record { events = []; next = q.next; shell = x })) w

child_stays :
    (q : Round) (later : Option Round) (n : Next) (p : Parsed)
    → n ≡ be_child p
    → ◌≡◌ {A = Option Round}
        (elim n [
          | go_on ↦ after q later
          | exit_with i ↦ some q
          | leave_loop ↦ some q
          | be_child p' ↦ some q
        ])
        (some q)
child_stays q later go_on p e = absurd (cc e)
child_stays q later (exit_with i) p e = refl
child_stays q later leave_loop p e = refl
child_stays q later (be_child p') p e = refl

stops_in_child :
    (r : Results) (b : Text) (s : Shell) (rest : List (Results × Text)) (q : Round) (p : Parsed)
    → shell_round r (some b) s ≡ some q
    → q.next ≡ be_child p
    → main_loop ((r, b) ∷ rest) s ≡ some q
unfolding main_loop continue_with
stops_in_child r b s rest q p ran next =
    rw (ran, main_loop) (child_stays q (main_loop rest q.shell) q.next p next)

-- A session from the start of the shell: lines `l` that fit the buffer, none of them `exit` or
-- `SIZE - 1` delimiters, in whose rounds every `fork` and `waitpid` succeeds, and then a line `b`
-- whose words, but for `mytime` and `&`, are `history` and what stands behind it, with at least
-- one redirection and no bar. In the process in which the `fork` for `b` returns 0, where the
-- files for the output are opened and no program can be run as `history`, all lines so far that
-- are not blank, at most `SIZE`, are printed in order and numbered from 1, `b` as the last one:
-- to the last file behind `>>`, or else to the last one behind `>`, or else to the shell's
-- standard output. With a buffer that is written at the end of the process, the file is the one
-- that `redirections` has opened, and not that of `printHistory`.
pub session_history :
    (k : Kernel) (o : Leftover) (t : Table) (l rest : List (Results × Text)) (b : Text)
    (ws : List Text) (items : List Item) (r : Results) (start : Shell)
    (fd1 fd2 saved history_fd1 history_fd2 : ℕ)
    → start.history ≡ no_history
    → All IsCalm l
    → All IsStaying l
    → All HasByte (lines l ++ (b ∷ []))
    → length (commands (lines l ++ (b ∷ []))) ≤ size
    → Opens k fd1 fd2
    → Reopens k saved history_fd1 history_fd2
    → Line b ws
    → Fits b
    → plain_words ws ≡ flat (history ∷ items)
    → All IsPlain items
    → All NoBar (flat items)
    → has_redirection items ≡ true
    → k.exec_ok (words (history ∷ items)) ≡ false
    → r.forked ≡ in_child
    → (q : Round) × (x : Exec) × (main_loop (l ++ ((r, b) ∷ rest)) start ≡ some q)
      × (child_round k o t q ≡ some (x ∷ []))
      × (x.runs ≡ prints (numbered 0 (commands (lines l ++ (b ∷ [])))))
      × (x.table 1
          ≡ destination k.buffering
              (target append_or_create
                (last_file (codes ">>") items)
                (target create (last_file (codes ">") items) (t 1)))
              (target append
                (last_file (codes ">>") items)
                (target create (last_file (codes ">") items) (t 1))))
session_history k o t l rest b ws items r start fd1 fd2 saved h1 h2 new calm stay bytes few opens
      reopens line short same plain bars redirects fails forked =
    let c = main_loop-Continues l start calm stay in
    let (q, x, round, child, runs, out) =
      typed_history k o t b ws items r c.shell fd1 fd2 saved h1 h2 opens reopens line short same
        plain bars redirects fails forked in
    let (p, next) = typed_next b ws r c.shell q line short (rw same refl) forked round in
    let (q', loop, n, w) =
      c.later ((r, b) ∷ rest) q (stops_in_child r b c.shell rest q p round next) in
    let known : remember b c.shell.history ≡ remember_all (lines l ++ (b ∷ [])) no_history =
      ap (remember b) (c.remembered ∙ ap (remember_all (lines l)) new)
      ∙ sym (remember_all-last (lines l) b no_history) in
    (
      q',
      x,
      loop,
      child_round-same k o t q q' n w ∙ child,
      runs
          ∙ ap (λ h. prints (print_history size 0 h.cell)) known
          ∙ ap prints (print_history-commands (lines l ++ (b ∷ [])) bytes few),
      out,
    )
