-- ===== src/Shell/Round/Session/Complete.antt =====
-- A session in which no call of the system fails (Assignment1/mysh.c).
use cs.Prelude.{
  ℕ, ◌+◌, ◌≡◌, refl, sym, ap, ◌∙◌, Bool, true, false, ◌||◌, none, some, List, [], ◌∷◌, ◌++◌, All,
  if◌then◌else◌, arith, Bool-cases, inl, inr,
}
use mathlib.Core.List.{append-nil}
use cs.Shell.Text.{Text}
use cs.Shell.Parse.{Parsed, parse_arguments}
use cs.Shell.Parse.Result.{Fits}
use cs.Shell.History.{remember_all}
use cs.Shell.Round.{
  Event, prompt, change_dir, error_message, fork_child, wait_for, print_time, print_newline,
  in_parent, Results, go_on, exit_with, leave_loop, Shell, Round, eof_round,
}
use cs.Shell.Round.Behaviour.{
  is_external, is_exit, forks, waits, awaited, next_of, Behaves, shell_round-Behaves,
}
use cs.Shell.Round.Session.{main_loop, continue_with, after}

-- What the shell understands of a line.
abbrev pub understood : Text → Parsed
understood line = elim (parse_arguments line) [
  | none ↦ record { args = []; time_flag = false; ampersand = false }
  | some p ↦ p
]

-- The rounds up to the first `exit`.
abbrev pub until_exit : List (Results × Text) → List (Results × Text)
until_exit [] = []
until_exit ((r, line) ∷ l) =
    let more = until_exit l in
    if is_exit (understood line).args then (r, line) ∷ [] else (r, line) ∷ more

abbrev pub lines : List (Results × Text) → List Text
lines [] = []
lines ((r, line) ∷ l) = line ∷ lines l

abbrev pub externals : List (Results × Text) → ℕ
externals [] = 0
externals ((r, line) ∷ l) = (if is_external (understood line).args then 1 else 0) + externals l

abbrev pub all_awaited : List (Results × Text) → List ℕ
all_awaited [] = []
all_awaited ((r, line) ∷ l) = awaited r (understood line) ++ all_awaited l

-- The line fits the buffer and is not `SIZE - 1` delimiters, `fork` makes a child, and the child
-- can be waited for.
abbrev pub IsCalm : Results × Text → Type 0
IsCalm (r, line) = Fits line × ((pid : ℕ) × (r.forked ≡ in_parent pid)) × (r.wait_ok ≡ true)

-- Whether one of the lines is the command `exit`.
abbrev pub has_exit : List (Results × Text) → Bool
has_exit [] = false
has_exit ((r, line) ∷ l) = is_exit (understood line).args || has_exit l

-- The shell ends with 0 where a line is `exit`, and else leaves the loop; it has forked once for
-- each external command up to the first `exit`, waited for the children of those in the
-- foreground in their order, and remembered these lines.
pub record Complete (l : List (Results × Text)) (s : Shell) (q : Round) : Type 0 where
  pub ended : q.next ≡ (if has_exit l then exit_with 0 else leave_loop)
  pub forked : forks q.events ≡ externals l
  pub waited : waits q.events ≡ all_awaited l
  pub remembered : q.shell.history ≡ remember_all (lines l) s.history

forks-append : (a b : List Event) → forks (a ++ b) ≡ forks a + forks b
forks-append [] b = omega arith
forks-append (fork_child ∷ a) b = omega (arith, forks-append a b)
forks-append (prompt ∷ a) b = forks-append a b
forks-append (change_dir d ∷ a) b = forks-append a b
forks-append (error_message t ∷ a) b = forks-append a b
forks-append (wait_for pid ∷ a) b = forks-append a b
forks-append (print_time ∷ a) b = forks-append a b
forks-append (print_newline ∷ a) b = forks-append a b

waits-append : (a b : List Event) → waits (a ++ b) ≡ waits a ++ waits b
waits-append [] b = refl
waits-append (wait_for pid ∷ a) b = ap (λ x. pid ∷ x) (waits-append a b)
waits-append (fork_child ∷ a) b = waits-append a b
waits-append (prompt ∷ a) b = waits-append a b
waits-append (change_dir d ∷ a) b = waits-append a b
waits-append (error_message t ∷ a) b = waits-append a b
waits-append (print_time ∷ a) b = waits-append a b
waits-append (print_newline ∷ a) b = waits-append a b

-- In a round without failures the loop goes on unless the command is `exit`.
pub next_of-calm :
    (r : Results) (line : Text) (p : Parsed)
    → IsCalm (r, line)
    → next_of r p ≡ (if is_exit p.args then exit_with 0 else go_on)
next_of-calm r line p (_, (pid, f), w) = rw (f, w) (ground arith)

module _ (r : Results) (line : Text) (s : Shell) (q : Round) (calm : IsCalm (r, line))
    (b : Behaves r line s (understood line) q) where
  last-Complete :
      is_exit (understood line).args ≡ true → (q.next ≡ exit_with 0) × Complete ((r, line) ∷ []) s q
  unfolding remember_all
  last-Complete x =
      let e : q.next ≡ exit_with 0 = b.ended ∙ next_of-calm r line (understood line) calm ∙ rw x in
      (
        e,
        record {
          ended = e ∙ rw x;
          forked = omega (arith, b.forked);
          waited = b.waited ∙ sym (append-nil (awaited r (understood line)));
          remembered = b.remembered;
        },
      )

  more-Complete :
      (l : List (Results × Text)) (later : Round)
      → is_exit (understood line).args ≡ false
      → Complete l q.shell later
      → (q.next ≡ go_on)
        × Complete ((r, line) ∷ l) s (record later { events = q.events ++ later.events })
  unfolding remember_all
  more-Complete l later x c = (
    b.ended ∙ next_of-calm r line (understood line) calm ∙ rw x,
    record {
      ended = c.ended ∙ rw x refl;
      forked = omega (arith, forks-append q.events later.events, b.forked, c.forked);
      waited =
          waits-append q.events later.events
          ∙ ap (λ x. x ++ waits later.events) b.waited
          ∙ ap (λ x. awaited r (understood line) ++ x) c.waited;
      remembered = c.remembered ∙ ap (remember_all (lines l)) b.remembered;
    },
  )

-- A session whose lines fit the buffer, none of them `SIZE - 1` delimiters, and in which every
-- `fork` and `waitpid` succeeds ends with 0 at the first `exit`, or, without one, leaves the loop
-- at the end of the input; up to there the shell forks once for each external command, waits for
-- the children of those in the foreground in their order, and remembers the lines that are not
-- blank.
pub main_loop-Complete :
    (l : List (Results × Text)) (s : Shell)
    → All IsCalm l
    → (q : Round) × (main_loop l s ≡ some q) × Complete (until_exit l) s q
unfolding main_loop continue_with after
main_loop-Complete [] s calm = (
  eof_round s,
  refl,
  unfold eof_round remember_all in
      record { ended = refl; forked = refl; waited = refl; remembered = refl },
)
main_loop-Complete ((r, line) ∷ rest) s calm =
    let (p, q, e, f, b) = shell_round-Behaves r line s calm.0.0 in
    let same : understood line ≡ p = rw (e, understood) in
    let b' : Behaves r line s (understood line) q = rw same b in
    let (later, g, c) = main_loop-Complete rest q.shell calm.1 in
    elim (Bool-cases (is_exit (understood line).args)) [
      | inl x ↦
          let (n, z) = last-Complete r line s q calm.0 b' x in
          (q, rw (f, main_loop, n, continue_with), rw x z)
      | inr x ↦
          let (n, z) = more-Complete r line s q calm.0 b' (until_exit rest) later x c in
          (
            record later { events = q.events ++ later.events },
            rw (f, main_loop, n, g, continue_with, after),
            rw x z,
          )
    ]
