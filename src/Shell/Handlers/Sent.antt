-- ===== src/Shell/Handlers/Sent.antt =====
-- To which process a signal is sent on (Assignment1/mysh.c).
use cs.Prelude.{
  ℕ, ◌≡◌, ◌≢◌, refl, ap, ◌∙◌, Bool, true, false, Option, some, List, [], ◌∷◌, if◌then◌else◌, arith,
  Bool-cases, inl, inr,
}
use cs.Shell.Text.{Text, codes, text_eq}
use cs.Shell.Parse.{Parsed, parse_arguments}
use cs.Shell.Parse.Result.{Fits, parse_arguments-parsed}
use cs.Shell.History.{remember}
use cs.Shell.Round.{
  Results, Shell, Round, in_parent, pid_after, command_part, with_prompt, shell_round,
}
use cs.Shell.Round.Behaviour.{is_external}
use cs.Shell.Handlers.{
  Reaction, received, command_is, send, signal_int_handler, signal_term_handler, pass_on, in_loop,
  deliver,
}

-- The signals that are sent.
abbrev pub sent : List Reaction → List (ℕ × ℕ)
sent [] = []
sent (received n ∷ l) = sent l
sent (command_is p n ∷ l) = sent l
sent (send pid signal ∷ l) = (pid, signal) ∷ sent l

-- The pid that the handlers know after the command.
command_part-pid :
    (r : Results) (s : Shell) (args : List Text) (time_flag ampersand : Bool)
    → let p : Parsed = record { args = args; time_flag = time_flag; ampersand = ampersand } in
      (command_part r p s).shell.global_pid
      ≡ (if is_external args then pid_after r.forked else s.global_pid)
unfolding command_part
command_part-pid r s [] time_flag ampersand = refl
command_part-pid r s (t ∷ l) time_flag ampersand = elim (Bool-cases (text_eq t (codes "exit"))) [
  | inl e ↦ rw e (ground arith)
  | inr f ↦ elim (Bool-cases (text_eq t (codes "cd"))) [
    | inl e ↦ rw (f, e) (ground arith)
    | inr g ↦ rw (f, g) (ground arith)
  ]
]

pass_on-pid : {pid signal : ℕ} → pid ≢ 0 → sent (pass_on (some pid) signal) ≡ (pid, signal) ∷ []
unfolding pass_on
pass_on-pid ne = ground arith

-- In the loop of `main`, after a round of a line that fits the buffer, other than `SIZE - 1`
-- delimiters, and whose `fork` succeeds in the parent, SIGINT and SIGTERM are both sent on to the
-- child of the round's command if it is external; otherwise to the process to which they were
-- sent on before.
pub signal-sent :
    (signal pid : ℕ) (r : Results) (line : Text) (s : Shell)
    → Fits line
    → pid ≢ 0
    → r.forked ≡ in_parent pid
    → (p : Parsed) × (q : Round) × (parse_arguments line ≡ some p)
      × (shell_round r (some line) s ≡ some q)
      × (sent (deliver in_loop.on_int signal q.shell) ≡ (
          if is_external p.args
          then (pid, signal) ∷ []
          else sent (deliver in_loop.on_int signal s)))
      × (sent (deliver in_loop.on_term signal q.shell) ≡ (
          if is_external p.args
          then (pid, signal) ∷ []
          else sent (deliver in_loop.on_term signal s)))
unfolding shell_round with_prompt signal_int_handler signal_term_handler deliver
signal-sent signal pid r line s h ne f =
    let (p, e, _, _) = parse_arguments-parsed line h in
    let next : Shell = record s { history = remember line s.history } in
    let known = command_part-pid r next p.args p.time_flag p.ampersand in
    let both = ap (λ x. sent (pass_on x signal)) known ∙ passed (is_external p.args) s.global_pid in
    (p, with_prompt (command_part r p next), e, rw (e, shell_round), both, both)
  where
    passed :
        (b : Bool) (old : Option ℕ)
        → sent (pass_on (if b then pid_after r.forked else old) signal)
          ≡ (if b then (pid, signal) ∷ [] else sent (pass_on old signal))
    passed true old = rw (f, pid_after) (pass_on-pid ne)
    passed false old = refl
