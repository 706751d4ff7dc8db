-- ===== src/Shell/Spawn/Stopped.antt =====
-- A pipeline in which a call of `spawn_proc` fails (Assignment1/mysh.c).
use cs.Prelude.{
  ℕ, zero, suc, ◌+◌, ◌<◌, ◌≡◌, refl, sym, ◌∙◌, Bool, true, false, Option, none, some, List, ◌∷◌,
  take, arith, if◌then◌else◌,
}
use cs.Shell.Cells.{Cells}
use cs.Shell.Pipe.{PipeState, next_arg}
use cs.Shell.Redirect.Files.{Table, assign, reads, writes}
use cs.Shell.Spawn.{
  Exec, spawn_proc, Processes, Printing, Child, add_exec, after_fork, run_pipeline,
}
use cs.Shell.Spawn.Wired.{NoFailure}

module _ (args : Cells) (h : Printing) where
  abbrev piped : (ℕ × ℕ) → ℕ → Child → Table
  piped ends i c = assign (assign c.table ends.0 (some (reads i))) ends.1 (some (writes i))

  abbrev command : (ℕ × ℕ) → ℕ → Child → PipeState → Exec
  command ends i c s = spawn_proc h.look c.in_fd ends.1 s.temp (piped ends i c)

  abbrev next : (ℕ × ℕ) → ℕ → Child → PipeState → Child
  next ends i c s = record {
    in_fd = ends.0;
    table = assign (piped ends i c) ends.1 none;
    state = s;
  }

  -- A round that works, in a run that gives the list `full`.
  record Worked (p : Processes) (count i : ℕ) (c : Child) (full : List Exec) : Type 0 where
    state : PipeState
    found : next_arg args c.state ≡ some state
    rest : List Exec
    goes_on : run_pipeline p h count (i + 1) args (next (p.fresh i) i c state) ≡ some rest
    full_is : full ≡ command (p.fresh i) i c state ∷ rest

  run_pipeline-found :
      (p : Processes) (count i : ℕ) (c : Child) (s : PipeState)
      → next_arg args c.state ≡ some s
      → run_pipeline p h (suc count) i args c
        ≡ after_fork
            (p.forked i)
            (p.waited i)
            (command (p.fresh i) i c s)
            (run_pipeline p h count (i + 1) args (next (p.fresh i) i c s))
  unfolding run_pipeline
  run_pipeline-found p count i c s e = rw (e, run_pipeline) refl

  run_pipeline-lost :
      (p : Processes) (count i : ℕ) (c : Child)
      → next_arg args c.state ≡ none
      → run_pipeline p h (suc count) i args c ≡ none
  unfolding run_pipeline
  run_pipeline-lost p count i c e = rw (e, run_pipeline) refl

  added :
      (x : Exec) (o : Option (List Exec)) {full : List Exec}
      → after_fork true true x o ≡ some full
      → (l : List Exec) × (o ≡ some l) × (full ≡ x ∷ l)
  unfolding after_fork add_exec
  added x none e = cc
  added x (some l) e = (l, refl, cc)

  worked :
      (p : Processes) (count i : ℕ) (c : Child) (full : List Exec)
      → NoFailure p
      → run_pipeline p h (suc count) i args c ≡ some full
      → Worked p count i c full
  worked p count i c full works e = go (next_arg args c.state) refl
    where
      go : (o : Option PipeState) → next_arg args c.state ≡ o → Worked p count i c full
      go none q = absurd (none-ne-some (sym (run_pipeline-lost p count i c q) ∙ e))
        where
          none-ne-some : ¬ ◌≡◌ {A = Option (List Exec)} none (some full)
          none-ne-some f = cc
      go (some s) q =
          let e' = sym (run_pipeline-found p count i c s q) ∙ e in
          let (l, e'', f) = added _ _ (rw (works.forked i, works.waited i) at e') in
          record { state = s; found = q; rest = l; goes_on = e''; full_is = f }

  -- The round that fails, and the rounds before it.
  stopped_round :
      (forked : Bool) (x : Exec) (rest : List Exec) (o : Option (List Exec))
      → after_fork forked false x o ≡ some (take (if forked then suc zero else zero) (x ∷ rest))
  unfolding after_fork add_exec
  stopped_round true x rest o = refl
  stopped_round false x rest o = refl

  earlier_round :
      (forked : Bool) (j : ℕ) (x : Exec) (rest : List Exec) {o : Option (List Exec)}
      → o ≡ some (take (if forked then suc j else j) rest)
      → after_fork true true x o ≡ some (take (if forked then suc (suc j) else suc j) (x ∷ rest))
  unfolding after_fork add_exec
  earlier_round true j x rest e = rw e refl
  earlier_round false j x rest e = rw e refl

  -- Let the calls for the rounds before `j` succeed, and `waitpid` fail in round `j`. Then the
  -- commands are the first `j` of those that run where no call fails, and that of round `j` if it
  -- is forked.
  pub run_pipeline-stopped :
      (p fails : Processes) (j count i : ℕ) (c : Child) (full : List Exec)
      → NoFailure p
      → ((k : ℕ) → fails.fresh k ≡ p.fresh k)
      → ((k : ℕ) → k < j → (fails.forked (i + k) ≡ true) × (fails.waited (i + k) ≡ true))
      → fails.waited (i + j) ≡ false
      → j < count
      → run_pipeline p h count i args c ≡ some full
      → run_pipeline fails h count i args c
        ≡ some (take (if fails.forked (i + j) then suc j else j) full)
  run_pipeline-stopped p fails j zero i c full works same before stop h e = absurd (omega arith)
  run_pipeline-stopped p fails zero (suc count) i c full works same before stop h e =
      let w = worked p count i c full works e in
      let at : i + 0 ≡ i = omega arith in
      let stop' : fails.waited i ≡ false = rw at at stop in
      let r : fails.fresh i ≡ p.fresh i = same i in
      rw (run_pipeline-found fails count i c w.state w.found, w.full_is, stop', at, r)
        (stopped_round (fails.forked i) (command (p.fresh i) i c w.state) w.rest _)
  run_pipeline-stopped p fails (suc j) (suc count) i c full works same before stop h e =
      let w = worked p count i c full works e in
      let at : i + suc j ≡ (i + 1) + j = omega arith in
      let (f, v) = before 0 (omega arith) in
      let r : fails.fresh i ≡ p.fresh i = same i in
      let rest =
        run_pipeline-stopped p fails j count (i + 1) (next (p.fresh i) i c w.state) w.rest works
          same
          (λ k b.
            let up : (i + 1) + k ≡ i + suc k = omega arith in rw up (before (suc k) (omega arith)))
          (rw at at stop) (omega arith) w.goes_on in
      let first : i + 0 ≡ i = omega arith in
      rw
        (
          run_pipeline-found fails count i c w.state w.found,
          w.full_is,
          rw first at f,
          rw first at v,
          at,
          r,
        )
        (earlier_round (fails.forked ((i + 1) + j)) j (command (p.fresh i) i c w.state) w.rest rest)
