-- ===== src/Shell/Times/Counted.antt =====
-- What the times of a round count (Assignment1/mysh.c).
use cs.Prelude.{
  ℕ, ◌+◌, ◌-◌, ◌*◌, ◌^◌, ◌<◌, ◌≤◌, ◌≡◌, refl, ap, ◌∙◌, Bool, true, false, not, ◌&&◌, some, List, [],
  ◌∷◌, if◌then◌else◌, arith, Bool-cases, inl, inr,
}
use cs.Prelude.Int.{ℤ, pos, pos_part, neg_part}
use cs.Shell.Text.{Text, codes, text_eq}
use cs.Shell.Parse.{Parsed, parse_arguments}
use cs.Shell.Parse.Result.{Fits}
use cs.Shell.History.{remember}
use cs.Shell.Round.{
  Fork, failed, in_child, in_parent, Results, Shell, Round, command_part, fork_part, parent_part,
  cd_part, time_event, with_prompt, shell_round,
}
use cs.Shell.Round.Behaviour.{is_external, is_exit, awaited}
use cs.Shell.Times.{
  sec, Double, Timeval, Tms, Clocks, difference, Times, time_counter, printed_times,
}

-- The difference of two integers below 2 ^ 53 is exact.
pub record IsExact (d : Double) : Type 0 where
  pub minus_lem :
      (a b : ℕ)
      → b ≤ a
      → a < 2 ^ 53
      → d.minus (d.of_int (pos a)) (d.of_int (pos b)) ≡ d.of_int (pos (a - b))

-- The ticks of some processes.
abbrev pub total : (ℕ → ℕ) → List ℕ → ℕ
total ticks [] = 0
total ticks (pid ∷ l) = ticks pid + total ticks l

-- Between the two calls of `times` the processes `l` were waited for, whose ticks are given.
pub record Accounts (ticks : ℕ → Tms) (c : Clocks) (l : List ℕ) : Type 0 where
  pub user : c.end_tms.cutime ≡ c.start_tms.cutime + total (λ pid. (ticks pid).cutime) l
  pub system : c.end_tms.cstime ≡ c.start_tms.cstime + total (λ pid. (ticks pid).cstime) l
  pub user_range : c.end_tms.cutime < 2 ^ 53
  pub system_range : c.end_tms.cstime < 2 ^ 53

abbrev pub micros : Timeval → ℕ
micros t = t.tv_sec * sec + t.tv_usec

-- Whether an external command returns to the place where the times are printed.
abbrev pub returned : Fork → Bool → Bool
returned (in_parent pid) wait_ok = wait_ok
returned _ wait_ok = false

-- Whether a round prints times.
abbrev pub is_timed : Results → Parsed → Bool
is_timed r p =
    p.time_flag
    && not (is_exit p.args)
    && (if is_external p.args then not p.ampersand && returned r.forked r.wait_ok else true)

difference_lem : (a b : ℕ) → pos_part (difference a b) + b ≡ neg_part (difference a b) + a
unfolding difference
difference_lem a b = ground arith

module _ (d : Double) (c : Clocks) where
  abbrev counted : List (Times d)
  counted = time_counter d c ∷ []

  printed_once :
      (flag : Bool) → printed_times d c (time_event flag) ≡ (if flag then counted else [])
  unfolding printed_times time_event
  printed_once true = refl
  printed_once false = refl

  cd_part-timed :
      (r : Results) (p : Parsed) (l : List Text)
      → printed_times d c (cd_part r p l) ≡ (if p.time_flag then counted else [])
  unfolding cd_part printed_times time_event
  cd_part-timed r p [] = ground arith
  cd_part-timed r p (t ∷ l) = ground arith

  parent_part-timed :
      (r : Results) (p : Parsed) (pid : ℕ)
      → printed_times d c (parent_part r p pid).0
        ≡ (if p.time_flag && not p.ampersand && r.wait_ok then counted else [])
  unfolding parent_part printed_times time_event
  parent_part-timed r p pid = ground arith

  fork_part-timed :
      (r : Results) (p : Parsed) (f : Fork)
      → r.forked ≡ f
      → printed_times d c (fork_part r p).0
        ≡ (if p.time_flag && not p.ampersand && returned f r.wait_ok then counted else [])
  unfolding fork_part printed_times
  fork_part-timed r p failed e = rw (e, fork_part) (ground arith)
  fork_part-timed r p in_child e = rw (e, fork_part) (ground arith)
  fork_part-timed r p (in_parent pid) e = rw (e, fork_part) (parent_part-timed r p pid)

  command_part-timed :
      (r : Results) (s : Shell) (args : List Text) (time_flag ampersand : Bool)
      → let p : Parsed = record { args = args; time_flag = time_flag; ampersand = ampersand } in
        printed_times d c (with_prompt (command_part r p s)).events
        ≡ (if is_timed r p then counted else [])
  unfolding command_part with_prompt printed_times
  command_part-timed r s [] time_flag ampersand = ground (arith, printed_once time_flag)
  command_part-timed r s (t ∷ l) time_flag ampersand =
      let p : Parsed = record { args = t ∷ l; time_flag = time_flag; ampersand = ampersand } in
      elim (Bool-cases (text_eq t (codes "exit"))) [
        | inl e ↦ rw e (ground arith)
        | inr f ↦ elim (Bool-cases (text_eq t (codes "cd"))) [
          | inl e ↦ rw (f, e) (cd_part-timed r p l ∙ ground arith)
          | inr g ↦ rw (f, g) (fork_part-timed r p r.forked refl ∙ ground arith)
        ]
      ]

  -- The two calls of `times` count the processes that were waited for between them.
  time_counter-Accounts :
      (ticks : ℕ → Tms) (l : List ℕ)
      → IsExact d
      → Accounts ticks c l
      → ((time_counter d c).cuser
          ≡ d.over (d.of_int (pos (total (λ pid. (ticks pid).cutime) l))) (d.of_int c.clktck))
        × ((time_counter d c).csystem
            ≡ d.over (d.of_int (pos (total (λ pid. (ticks pid).cstime) l))) (d.of_int c.clktck))
  unfolding time_counter
  time_counter-Accounts ticks l exact h = (
    ap (λ x. d.over x (d.of_int c.clktck))
        (exact.minus_lem c.end_tms.cutime c.start_tms.cutime (omega (arith, h.user)) h.user_range
          ∙ ap (λ n. d.of_int (pos n)) (omega (arith, h.user))),
    ap (λ x. d.over x (d.of_int c.clktck))
        (exact.minus_lem c.end_tms.cstime c.start_tms.cstime (omega (arith, h.system))
            h.system_range
          ∙ ap (λ n. d.of_int (pos n)) (omega (arith, h.system))),
  )

  time_counter-micros :
      (x y : ℤ) × ((time_counter d c).realtime
        ≡ d.plus (d.of_int x) (d.over (d.of_int y) (d.of_int (pos sec))))
      × (pos_part x * sec + pos_part y + micros c.tv1
          ≡ neg_part x * sec + neg_part y + micros c.tv2)
  unfolding time_counter
  time_counter-micros =
      let s = difference_lem c.tv2.tv_sec c.tv1.tv_sec in
      let u = difference_lem c.tv2.tv_usec c.tv1.tv_usec in
      (
        difference c.tv2.tv_sec c.tv1.tv_sec,
        difference c.tv2.tv_usec c.tv1.tv_usec,
        refl,
        omega (arith, s, u),
      )

-- Suppose that `times` counts the processes that were waited for, with fewer than 2 ^ 53 ticks,
-- and that differences of such numbers are exact. The round of a line that fits the buffer, other
-- than `SIZE - 1` delimiters, prints times once if the line has `mytime`, is not `exit`, and is
-- not an external command that runs in the background, cannot be forked, or cannot be waited for;
-- otherwise never. The user and the system time are the ticks of the command that was waited for,
-- or 0 where there is none, divided by the ticks of a second; the real time is that of the clock,
-- in seconds and a millionth of the rest.
pub printed_times-counted :
    (d : Double) (c : Clocks) (ticks : ℕ → Tms) (r : Results) (b : Text) (sh : Shell) (p : Parsed)
    → IsExact d
    → Fits b
    → parse_arguments b ≡ some p
    → Accounts ticks c (awaited r p)
    → (q : Round) × (t : Times d) × (x y : ℤ) × (shell_round r (some b) sh ≡ some q)
      × (printed_times d c q.events ≡ (if is_timed r p then t ∷ [] else []))
      × (t.cuser
          ≡ d.over
              (d.of_int (pos (total (λ pid. (ticks pid).cutime) (awaited r p))))
              (d.of_int c.clktck))
      × (t.csystem
          ≡ d.over
              (d.of_int (pos (total (λ pid. (ticks pid).cstime) (awaited r p))))
              (d.of_int c.clktck))
      × (t.realtime ≡ d.plus (d.of_int x) (d.over (d.of_int y) (d.of_int (pos sec))))
      × (pos_part x * sec + pos_part y + micros c.tv1
          ≡ neg_part x * sec + neg_part y + micros c.tv2)
unfolding shell_round
printed_times-counted d c ticks r b sh p exact short parsed h =
    let (user, system) = time_counter-Accounts d c ticks (awaited r p) exact h in
    let (x, y, real, elapsed) = time_counter-micros d c in
    (
      with_prompt (command_part r p (record sh { history = remember b sh.history })),
      time_counter d c,
      x,
      y,
      rw (parsed, shell_round),
      command_part-timed d c r (record sh { history = remember b sh.history }) p.args p.time_flag
          p.ampersand,
      user,
      system,
      real,
      elapsed,
    )
