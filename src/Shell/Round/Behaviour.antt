-- ===== src/Shell/Round/Behaviour.antt =====
-- What one round of the shell does (Assignment1/mysh.c).
use cs.Prelude.{
  ℕ, ◌≡◌, refl, ap, ◌∙◌, Bool, true, false, not, ◌&&◌, ◌||◌, some, List, [], ◌∷◌, if◌then◌else◌,
  arith, suc, Bool-cases, inl, inr,
}
use cs.Shell.Text.{Text, codes, text_eq, text_eq_iff}
use cs.Shell.Parse.{Parsed, parse_arguments}
use cs.Shell.Parse.Result.{Fits, parse_arguments-parsed}
use cs.Shell.History.{remember}
use cs.Shell.Round.{
  Event, fork_child, wait_for, Fork, failed, in_child, in_parent, Results, Next, exit_with, go_on,
  be_child, Shell, Round, command_part, fork_part, parent_part, cd_part, time_event, with_prompt,
  shell_round,
}

-- A command that the shell gives to a child.
abbrev pub is_external : List Text → Bool
is_external [] = false
is_external (t ∷ l) = not (text_eq t (codes "exit") || text_eq t (codes "cd"))

-- How often the round forks, and for which processes it waits.
abbrev pub forks : List Event → ℕ
forks [] = 0
forks (fork_child ∷ l) = suc (forks l)
forks (_ ∷ l) = forks l

abbrev pub waits : List Event → List ℕ
waits [] = []
waits (wait_for pid ∷ l) = pid ∷ waits l
waits (_ ∷ l) = waits l

abbrev pub child_of : Fork → List ℕ
child_of (in_parent pid) = pid ∷ []
child_of _ = []

abbrev pub is_exit : List Text → Bool
is_exit [] = false
is_exit (t ∷ l) = text_eq t (codes "exit")

-- How an external command lets the round end.
abbrev pub fork_next : Fork → Bool → Parsed → Next
fork_next failed wait_ok p = exit_with 1
fork_next in_child wait_ok p = be_child p
fork_next (in_parent pid) wait_ok p = if p.ampersand || wait_ok then go_on else exit_with 1

abbrev pub next_of : Results → Parsed → Next
next_of r p =
    if is_exit p.args
    then exit_with 0
    else if is_external p.args
    then fork_next r.forked r.wait_ok p
    else go_on

-- The processes that a command in the foreground is waited for.
abbrev pub awaited : Results → Parsed → List ℕ
awaited r p = if is_external p.args && not p.ampersand then child_of r.forked else []

-- The round forks once for an external command and otherwise never; it waits for the child of an
-- external command in the foreground and for no other process; it ends the shell with 0 for
-- `exit`, and with 1 where a fork or a wait fails; and the history has the line.
pub record Behaves (r : Results) (line : Text) (s : Shell) (p : Parsed) (q : Round) : Type 0 where
  pub forked : forks q.events ≡ (if is_external p.args then 1 else 0)
  pub waited : waits q.events ≡ awaited r p
  pub ended : q.next ≡ next_of r p
  pub remembered : q.shell.history ≡ remember line s.history

pub exit_or_cd : (t : Text) → text_eq t (codes "exit") ≡ true → text_eq t (codes "cd") ≡ false
exit_or_cd t e = rw ((text_eq_iff t (codes "exit")).0 e)

cd_part-forks :
    (r : Results) (p : Parsed) (l : List Text)
    → (forks (cd_part r p l) ≡ 0) × (waits (cd_part r p l) ≡ [])
unfolding cd_part time_event
cd_part-forks r p [] = (ground arith, ground arith)
cd_part-forks r p (d ∷ l) = (ground arith, ground arith)

fork_part-Behaves :
    (r : Results) (p : Parsed) (f : Fork)
    → r.forked ≡ f
    → (forks (fork_part r p).0 ≡ 0)
      × (waits (fork_part r p).0 ≡ (if p.ampersand then [] else child_of f))
      × ((fork_part r p).1 ≡ fork_next f r.wait_ok p)
unfolding fork_part parent_part time_event
fork_part-Behaves r p failed e =
    (rw (e, fork_part), rw (e, fork_part) (ground arith), rw (e, fork_part))
fork_part-Behaves r p in_child e =
    (rw (e, fork_part), rw (e, fork_part) (ground arith), rw (e, fork_part))
fork_part-Behaves r p (in_parent pid) e = (
  rw (e, fork_part) (ground arith),
  rw (e, fork_part) (ground arith),
  rw (e, fork_part) (ground arith),
)

command_part-Behaves :
    (r : Results) (line : Text) (s : Shell) (args : List Text) (time_flag ampersand : Bool)
    → let p : Parsed = record { args = args; time_flag = time_flag; ampersand = ampersand } in
      Behaves r line s p
        (with_prompt (command_part r p (record s { history = remember line s.history })))
unfolding command_part with_prompt
command_part-Behaves r line s [] time_flag ampersand =
    unfold time_event in
    record { forked = ground arith; waited = ground arith; ended = refl; remembered = refl }
command_part-Behaves r line s (t ∷ l) time_flag ampersand =
    let p : Parsed = record { args = t ∷ l; time_flag = time_flag; ampersand = ampersand } in
    elim (Bool-cases (text_eq t (codes "exit"))) [
      | inl e ↦ rw e (record {
        forked = ground arith;
        waited = ground arith;
        ended = ground arith;
        remembered = refl;
      })
      | inr f ↦ elim (Bool-cases (text_eq t (codes "cd"))) [
        | inl e ↦
            let (a, b) = cd_part-forks r p l in
            rw (f, e)
              (record {
                forked = a ∙ ground arith;
                waited = b ∙ ground arith;
                ended = ground arith;
                remembered = refl;
              })
        | inr g ↦
            let (a, b, c) = fork_part-Behaves r p r.forked refl in
            rw (f, g)
              (record {
                forked = ap suc a ∙ ground arith;
                waited = b ∙ ground arith;
                ended = c ∙ ground arith;
                remembered = refl;
              })
      ]
    ]

-- For every command line that fits the buffer, other than `SIZE - 1` delimiters, the round is
-- made. It forks once for an external command and otherwise never, waits for the child of such a
-- command in the foreground and for no other process, ends the shell with 0 for `exit`, with 1
-- where the fork or the wait of an external command fails, becomes the child where the fork says
-- so, and else goes on; and the history has the line unless it is blank.
pub shell_round-Behaves :
    (r : Results) (line : Text) (s : Shell)
    → Fits line
    → (p : Parsed) × (q : Round) × (parse_arguments line ≡ some p)
      × (shell_round r (some line) s ≡ some q)
      × Behaves r line s p q
unfolding shell_round
shell_round-Behaves r line s h =
    let (p, e, _, _) = parse_arguments-parsed line h in
    (
      p,
      with_prompt (command_part r p (record s { history = remember line s.history })),
      e,
      rw (e, shell_round),
      command_part-Behaves r line s p.args p.time_flag p.ampersand,
    )
