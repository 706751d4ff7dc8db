-- ===== src/Shell/Spawn/Wired.antt =====
-- The commands of a pipeline are joined by its pipes (Assignment1/mysh.c).
use cs.Prelude.{
  ℕ, if◌then◌else◌, ◌==◌, suc, ◌+◌, ◌<◌, ◌≡◌, ◌≢◌, refl, true, ap, ◌∙◌, ◌⊎◌, inl, inr, Option, none,
  some, List, [], ◌∷◌, All, length, length-append, arith,
}
use cs.Shell.Text.{Text}
use cs.Shell.Cells.{Cells, cells, cells-append}
use cs.Shell.Parse.{size}
use cs.Shell.Search.Found.{count_text}
use cs.Shell.Pipe.{PipeState, next_arg}
use cs.Shell.Pipe.Stages.{IsStage, joined, bar, next_arg-stage, count-joined}
use cs.Shell.Redirect.Files.{End, reads, writes, Table, assign}
use cs.Shell.Spawn.Asked.{asked, spawn_proc-runs, IsPlainPrinting, last_command-asked}
use cs.Shell.Spawn.{
  Exec, Lookup, Printing, spawn_proc, spawn_input, spawn_output, Processes, Child, after_fork,
  run_last, run_pipeline, add_exec, last_exec,
}

-- `pipe` returns two different descriptors beyond standard error, and not the one that is still
-- open from the round before.
pub record IsFresh (fresh : ℕ → ℕ × ℕ) (i : ℕ) : Type 0 where
  pub read_end : 2 < (fresh i).0
  pub write_end : 2 < (fresh i).1
  pub differ : (fresh i).0 ≢ (fresh i).1
  pub next_read : (fresh i).0 ≢ (fresh (i + 1)).0
  pub next_write : (fresh i).0 ≢ (fresh (i + 1)).1

-- Each command reads from `from`, which for the later ones is the pipe before it, and writes to
-- the pipe behind it; the last one writes to `to`.
abbrev pub Wired :
    (look : Lookup) (i : ℕ) (from to : Option End)
    → List Text
    → List (List Text)
    → List Exec
    → Type 0
Wired look i from to s rest [] = ⊥
Wired look i from to s [] (x ∷ l) =
    (x.runs ≡ asked look s) × (x.table 0 ≡ from) × (x.table 1 ≡ to) × (l ≡ [])
Wired look i from to s (r ∷ rest) (x ∷ l) =
    (x.runs ≡ asked look s)
    × (x.table 0 ≡ from)
    × (x.table 1 ≡ some (writes i))
    × Wired look (i + 1) (some (reads i)) to r rest l

-- The descriptors of the child before round `i`.
record Ready (fresh : ℕ → ℕ × ℕ) (i : ℕ) (from to : Option End) (c : Child) : Type 0 where
  input : c.table c.in_fd ≡ from
  output : c.table 1 ≡ to
  in_range : (c.in_fd ≡ 0) ⊎ (2 < c.in_fd)
  not_read : c.in_fd ≢ (fresh i).0
  not_write : c.in_fd ≢ (fresh i).1

spawn_proc-table :
    (look : Lookup) (in_fd out : ℕ) (temp : List Text) (t : Table)
    → (in_fd ≡ 0) ⊎ (2 < in_fd)
    → 2 < out
    → in_fd ≢ out
    → ((spawn_proc look in_fd out temp t).table 0 ≡ t in_fd)
      × ((spawn_proc look in_fd out temp t).table 1 ≡ t out)
unfolding spawn_proc spawn_output spawn_input
spawn_proc-table look in_fd out temp t h g ne = (ground arith, ground arith)

-- No call of `fork` fails, and each call of `waitpid` returns the stage: every stage ends before
-- the next one is started, so that what it writes has room in its pipe.
pub record NoFailure (p : Processes) : Type 0 where
  pub forked : (i : ℕ) → p.forked i ≡ true
  pub waited : (i : ℕ) → p.waited i ≡ true

module _ (proc : Processes) (new : (i : ℕ) → IsFresh proc.fresh i) (works : NoFailure proc)
    (h : Printing) (plain : IsPlainPrinting h) (args : Cells) (to : Option End) where
  open proc use {fresh}

  -- The open files after `pipe` in round `i`.
  abbrev piped : ℕ → Table → Table
  piped i t = assign (assign t (fresh i).0 (some (reads i))) (fresh i).1 (some (writes i))

  abbrev after : ℕ → Table → PipeState → Child
  after i t s = record {
    in_fd = (fresh i).0;
    table = assign (piped i t) (fresh i).1 none;
    state = s;
  }

  after-Ready :
      (i : ℕ) (from : Option End) (c : Child) (s : PipeState)
      → Ready fresh i from to c
      → Ready fresh (i + 1) (some (reads i)) to (after i c.table s)
  after-Ready i from c s h =
      let f = new i in
      record {
        input = ground arith;
        output = ground (arith, h.output);
        in_range = inr f.read_end;
        not_read = f.next_read;
        not_write = f.next_write;
      }

  piped-ends :
      (i : ℕ) (from : Option End) (c : Child)
      → Ready fresh i from to c
      → (piped i c.table c.in_fd ≡ from) × (piped i c.table (fresh i).1 ≡ some (writes i))
  piped-ends i from c h = (ground (arith, h.input), ground arith)

  run_last-ends :
      (from : Option End) (i : ℕ) (c : Child) (s : PipeState)
      → Ready fresh i from to c
      → next_arg args c.state ≡ some s
      → (l : List Exec) × (run_last h args c ≡ some l) × Wired h.look i from to s.temp [] l
  unfolding run_last
  run_last-ends from i c s ready e =
      let t = if c.in_fd == 0 then c.table else assign c.table 0 (c.table c.in_fd) in
      let (runs, t0, t1) = last_command-asked h s.temp t plain in
      (
        last_exec h c s.temp ∷ [],
        rw (e, run_last),
        unfold last_exec in
            (runs, t0 ∙ ground (arith, ready.input), t1 ∙ ground (arith, ready.output), refl),
      )

  run_pipeline-Wired :
      (rest : List (List Text)) (s : List Text) (i : ℕ) (from : Option End) (c : Child)
      (junk : Cells)
      → Ready fresh i from to c
      → ((j : ℕ) → args (c.state.next_pipe + j) ≡ cells (joined s rest) junk j)
      → All IsStage (s ∷ rest)
      → c.state.next_pipe + length (joined s rest) < size
      → (l : List Exec) × (run_pipeline proc h (length rest) i args c ≡ some l)
        × Wired h.look i from to s rest l
  unfolding run_pipeline after_fork add_exec
  run_pipeline-Wired [] s i from c junk ready same ok room =
      run_last-ends from i c _ ready
        (next_arg-stage args c.state.next_pipe c.state.temp s [] junk same ok.0 room)
  run_pipeline-Wired (r ∷ rest) s i from c junk ready same ok room =
      let size_eq = length-append s (bar ∷ joined r rest) in
      let p = c.state.next_pipe in
      let one =
        next_arg-stage args p c.state.temp s (r ∷ rest) junk same ok.0 (omega (arith, size_eq)) in
      let s' : PipeState = record { temp = s; next_pipe = p + length s + 1 } in
      let (l, e, w) =
        run_pipeline-Wired rest r (i + 1) (some (reads i)) (after i c.table s') junk
          (after-Ready i from c s' ready)
          (λ j.
            ap args (omega arith)
            ∙ same (length s + suc j)
            ∙ cells-append s (bar ∷ joined r rest) junk (suc j))
          ok.1 (omega (arith, size_eq)) in
      let (a, b) = piped-ends i from c ready in
      let (t0, t1) =
        spawn_proc-table h.look c.in_fd (fresh i).1 s (piped i c.table) ready.in_range
          (new i).write_end ready.not_write in
      (
        spawn_proc h.look c.in_fd (fresh i).1 s (piped i c.table) ∷ l,
        rw (one, run_pipeline, works.forked i, works.waited i) (ap (add_exec _) e),
        (spawn_proc-runs h.look c.in_fd (fresh i).1 s (piped i c.table), t0 ∙ a, t1 ∙ b, w),
      )

-- The child before the first round: no pipe, and the shell's own files.
abbrev pub first_child : Table → List Text → Child
first_child t old = record { in_fd = 0; table = t; state = record { temp = old; next_pipe = 0 } }

-- In a pipeline of stages that are not empty, where no call fails, each stage is run as one
-- command; it reads from the pipe before it and writes to the pipe behind it, and the first and
-- the last one have the shell's standard input and output there.
pub pipeline-Wired :
    (proc : Processes) (t : Table) (s : List Text) (rest : List (List Text)) (old : List Text)
    (junk : Cells)
    → ((i : ℕ) → IsFresh proc.fresh i)
    → NoFailure proc
    → (h : Printing) → IsPlainPrinting h
    → All IsStage (s ∷ rest)
    → length (joined s rest) < size
    → (l : List Exec) × (run_pipeline proc h
          (count_text bar (joined s rest))
          0
          (cells (joined s rest) junk)
          (first_child t old)
        ≡ some l)
      × Wired h.look 0 (t 0) (t 1) s rest l
pipeline-Wired proc t s rest old junk new works h plain ok room = rw (count-joined s rest ok) (
    run_pipeline-Wired proc new works h plain (cells (joined s rest) junk) (t 1) rest s 0 (t 0)
      (first_child t old) junk
      (record {
        input = refl;
        output = refl;
        in_range = inl refl;
        not_read = omega (arith, (new 0).read_end);
        not_write = omega (arith, (new 0).write_end);
      })
      (λ j. ap (cells (joined s rest) junk) (omega arith)) ok (omega arith))
