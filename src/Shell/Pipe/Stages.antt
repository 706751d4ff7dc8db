-- ===== src/Shell/Pipe/Stages.antt =====
-- The stages of a pipeline are the parts of the arguments between the bars (Assignment1/mysh.c).
use cs.Prelude.{
  ℕ, zero, suc, ◌+◌, ◌<◌, ◌≡◌, refl, ap, ◌∙◌, true, false, Option, none, some, List, [], ◌∷◌, ◌++◌,
  All, length, get_elem?, length-append, replicate, arith, ltb,
}
use cs.Shell.Text.{Text, codes}
use cs.Shell.Cells.{Cells, cells, cells-append, cells-get}
use cs.Shell.Parse.{size}
use cs.Shell.Search.Found.{count_text}
use cs.Shell.Pipe.{is_bar, collect, PipeState, has_arg, next_arg, stages}

abbrev pub bar : Text
bar = codes "|"

abbrev pub NoBar : Text → Type 0
NoBar t = is_bar t ≡ false

-- A stage: at least one argument, none of them a bar.
pub record IsStage (l : List Text) : Type 0 where
  pub some_arg : 0 < length l
  pub no_bar : All NoBar l

-- The arguments of a pipeline.
abbrev pub joined : List Text → List (List Text) → List Text
joined s [] = s
joined s (r ∷ rest) = s ++ (bar ∷ joined r rest)

collect-stop :
    (fuel i : ℕ) (args : Cells) → has_arg (args i) ≡ false → collect (suc fuel) i args ≡ some []
unfolding collect
collect-stop fuel i args e = ground arith

-- The loop collects a stage that ends at a bar or at NULL.
collect-stage :
    (fuel i : ℕ) (args : Cells) (l : List Text)
    → ((j : ℕ) → j < length l → args (i + j) ≡ get_elem? l j)
    → has_arg (args (i + length l)) ≡ false
    → All NoBar l
    → length l < fuel
    → collect fuel i args ≡ some l
unfolding collect
collect-stage zero i args l same stop ok f = absurd (omega arith)
collect-stage (suc fuel) i args [] same stop ok f =
    let e : i + 0 ≡ i = omega arith in collect-stop fuel i args (rw e at stop)
collect-stage (suc fuel) i args (t ∷ l) same stop ok f =
    let e : args i ≡ some t = ap args (omega arith) ∙ same 0 (omega arith) in
    let next : i + suc (length l) ≡ i + 1 + length l = omega arith in
    let rest : collect fuel (i + 1) args ≡ some l =
      collect-stage fuel (i + 1) args l (λ j h. ap args (omega arith) ∙ same (suc j) (omega arith))
        (rw next at stop) ok.1 (omega arith) in
    rw (e, collect) (rw (ok.0, collect) (rw (rest, collect)))

cells-prefix :
    (l r : List Text) (junk : Cells) (j : ℕ) → j < length l → cells (l ++ r) junk j ≡ get_elem? l j
cells-prefix [] r junk j h = absurd (omega arith)
cells-prefix (t ∷ l) r junk zero h = refl
cells-prefix (t ∷ l) r junk (suc j) h = cells-prefix l r junk j (omega arith)

cells-end : (l : List Text) (junk : Cells) → cells l junk (length l) ≡ none
cells-end [] junk = refl
cells-end (t ∷ l) junk = cells-end l junk

-- The first stage of a pipeline, cell by cell, and what stands behind it.
joined-first :
    (s : List Text) (rest : List (List Text)) (junk : Cells) (j : ℕ)
    → j < length s
    → cells (joined s rest) junk j ≡ get_elem? s j
joined-first s [] junk j h = cells-get s junk j h
joined-first s (r ∷ rest) junk j h = cells-prefix s (bar ∷ joined r rest) junk j h

joined-stop :
    (s : List Text) (rest : List (List Text)) (junk : Cells)
    → has_arg (cells (joined s rest) junk (length s)) ≡ false
joined-stop s [] junk = rw (cells-end s junk)
joined-stop s (r ∷ rest) junk =
    let e : length s ≡ length s + 0 = omega arith in
    ap has_arg
      (ap (cells (s ++ (bar ∷ joined r rest)) junk) e ∙ cells-append s (bar ∷ joined r rest) junk 0)

has_arg-stage : (s : List Text) (o : Option Text) → IsStage s → o ≡ get_elem? s 0 → has_arg o ≡ true
has_arg-stage [] o h e = absurd (omega (arith, h.some_arg))
has_arg-stage (t ∷ s) o h e = rw e (rw (h.no_bar.0))

-- One call of `nextArg` where a stage begins.
pub next_arg-stage :
    (args : Cells) (p : ℕ) (old : List Text) (s : List Text) (rest : List (List Text))
    (junk : Cells)
    → ((j : ℕ) → args (p + j) ≡ cells (joined s rest) junk j)
    → IsStage s
    → p + length s < size
    → next_arg args (record { temp = old; next_pipe = p })
      ≡ some (record { temp = s; next_pipe = p + length s + 1 })
unfolding next_arg
next_arg-stage args p old s rest junk same ok h =
    let in_range : ltb p size ≡ true = ground arith in
    let starts : has_arg (args p) ≡ true =
      has_arg-stage s (args p) ok
        (ap args (omega arith) ∙ same 0 ∙ joined-first s rest junk 0 ok.some_arg) in
    let found : collect size p args ≡ some s =
      collect-stage size p args s (λ j q. same j ∙ joined-first s rest junk j q)
        (rw (same (length s)) (joined-stop s rest junk)) ok.no_bar (omega arith) in
    rw (in_range, next_arg) (rw (starts, next_arg) (rw (found, next_arg)))

stages-joined :
    (args : Cells) (p : ℕ) (old : List Text) (s : List Text) (rest : List (List Text))
    (junk : Cells)
    → ((j : ℕ) → args (p + j) ≡ cells (joined s rest) junk j)
    → All IsStage (s ∷ rest)
    → p + length (joined s rest) < size
    → stages (suc (length rest)) args (record { temp = old; next_pipe = p }) ≡ some (s ∷ rest)
unfolding stages
stages-joined args p old s [] junk same ok h =
    rw (next_arg-stage args p old s [] junk same ok.0 h, stages)
stages-joined args p old s (r ∷ rest) junk same ok h =
    let size_eq = length-append s (bar ∷ joined r rest) in
    let one = next_arg-stage args p old s (r ∷ rest) junk same ok.0 (omega (arith, size_eq)) in
    let others =
      stages-joined args (p + length s + 1) s r rest junk
        (λ j.
          ap args (omega arith)
          ∙ same (length s + suc j)
          ∙ cells-append s (bar ∷ joined r rest) junk (suc j))
        ok.1 (omega (arith, size_eq)) in
    rw (one, stages) (rw (others, stages))

count-append :
    (op : Text) (l r : List Text) → count_text op (l ++ r) ≡ count_text op l + count_text op r
count-append op [] r = omega arith
count-append op (t ∷ l) r = omega (arith, count-append op l r)

count-NoBar : (l : List Text) → All NoBar l → count_text bar l ≡ 0
count-NoBar [] h = refl
count-NoBar (t ∷ l) h = rw (h.0, count-NoBar l h.1)

pub count-joined :
    (s : List Text) (rest : List (List Text))
    → All IsStage (s ∷ rest)
    → count_text bar (joined s rest) ≡ length rest
count-joined s [] h = count-NoBar s h.0.no_bar
count-joined s (r ∷ rest) h = omega (
  arith,
  count-append bar s (bar ∷ joined r rest),
  count-NoBar s h.0.no_bar,
  count-joined r rest h.1,
)

-- In a pipeline of stages that are not empty, with fewer than `SIZE` arguments, the calls of
-- `nextArg`, one more than there are bars, give the stages in order, whatever `tempargs` held and
-- whatever stands behind NULL.
pub stages_lem :
    (s : List Text) (rest : List (List Text)) (old : List Text) (junk : Cells)
    → All IsStage (s ∷ rest)
    → length (joined s rest) < size
    → stages
        (suc (count_text bar (joined s rest)))
        (cells (joined s rest) junk)
        (record { temp = old; next_pipe = 0 })
      ≡ some (s ∷ rest)
stages_lem s rest old junk ok h = rw (count-joined s rest ok) (
    stages-joined (cells (joined s rest) junk) 0 old s rest junk
      (λ j. ap (cells (joined s rest) junk) (omega arith)) ok (omega arith))

-- Where an empty stage begins, with a bar or NULL, all calls from there on leave `tempargs` as it
-- is.
stages-stay :
    (count : ℕ) (args : Cells) (s : PipeState)
    → has_arg (args s.next_pipe) ≡ false
    → stages count args s ≡ some (replicate count s.temp)
unfolding stages next_arg
stages-stay zero args s e = refl
stages-stay (suc count) args s e =
    let here : next_arg args s ≡ some s = ground arith in
    rw (here, stages) (rw (stages-stay count args s e, stages))

-- The last of the stages.
abbrev pub last_stage : List Text → List (List Text) → List Text
last_stage s [] = s
last_stage s (r ∷ rest) = last_stage r rest

module _ (args : Cells) (after : List Text) (junk : Cells) (count : ℕ)
    (empty : has_arg (cells after junk 0) ≡ false) where
  stages-before_empty :
      (p : ℕ) (old s : List Text) (rest : List (List Text))
      → ((j : ℕ) → args (p + j) ≡ cells (joined s (rest ++ (after ∷ []))) junk j)
      → All IsStage (s ∷ rest)
      → p + length (joined s (rest ++ (after ∷ []))) < size
      → stages (suc (length rest + count)) args (record { temp = old; next_pipe = p })
        ≡ some ((s ∷ rest) ++ replicate count (last_stage s rest))
  unfolding stages
  stages-before_empty p old s [] same ok h =
      let size_eq = length-append s (bar ∷ after) in
      let one = next_arg-stage args p old s (after ∷ []) junk same ok.0 (omega (arith, size_eq)) in
      let at : args (p + length s + 1) ≡ cells after junk 0 =
        ap args (omega arith) ∙ same (length s + 1) ∙ cells-append s (bar ∷ after) junk 1 in
      let behind : PipeState = record { temp = s; next_pipe = p + length s + 1 } in
      let none_left : length {A = List Text} [] + count ≡ count = omega arith in
      let stay : stages (length {A = List Text} [] + count) args behind ≡ some (replicate count s) =
        ap (λ c. stages c args behind) none_left
        ∙ stages-stay count args behind (ap has_arg at ∙ empty) in
      rw (one, stages) (rw (stay, stages))
  stages-before_empty p old s (r ∷ rest) same ok h =
      let later = joined r (rest ++ (after ∷ [])) in
      let size_eq = length-append s (bar ∷ later) in
      let one =
        next_arg-stage args p old s (r ∷ (rest ++ (after ∷ []))) junk same ok.0
          (omega (arith, size_eq)) in
      let others =
        stages-before_empty (p + length s + 1) s r rest
          (λ j.
            ap args (omega arith)
            ∙ same (length s + suc j)
            ∙ cells-append s (bar ∷ later) junk (suc j))
          ok.1 (omega (arith, size_eq)) in
      let behind : PipeState = record { temp = s; next_pipe = p + length s + 1 } in
      let one_less : length (r ∷ rest) + count ≡ suc (length rest + count) = omega arith in
      let rest_run = ap (λ c. stages c args behind) one_less ∙ others in
      rw (one, stages) (rw (rest_run, stages))

count-before_empty :
    (s : List Text) (rest : List (List Text)) (after : List Text)
    → All IsStage (s ∷ rest)
    → count_text bar (joined s (rest ++ (after ∷ []))) ≡ length rest + suc (count_text bar after)
count-before_empty s [] after h =
    omega (arith, count-append bar s (bar ∷ after), count-NoBar s h.0.no_bar)
count-before_empty s (r ∷ rest) after h = omega (
  arith,
  count-append bar s (bar ∷ joined r (rest ++ (after ∷ []))),
  count-NoBar s h.0.no_bar,
  count-before_empty r rest after h.1,
)

-- Let the arguments, fewer than `SIZE`, be stages that are not empty, and behind them a bar and
-- `after`, which begins with an empty stage. Then the calls of `nextArg`, one more than there are
-- bars, give these stages in order, and from the empty stage on the last of them again for each
-- call, also where a stage that is not empty follows.
pub stages-repeat :
    (s : List Text) (rest : List (List Text)) (after old : List Text) (junk : Cells)
    → All IsStage (s ∷ rest)
    → has_arg (cells after junk 0) ≡ false
    → length (joined s (rest ++ (after ∷ []))) < size
    → stages
        (suc (count_text bar (joined s (rest ++ (after ∷ [])))))
        (cells (joined s (rest ++ (after ∷ []))) junk)
        (record { temp = old; next_pipe = 0 })
      ≡ some ((s ∷ rest) ++ replicate (suc (count_text bar after)) (last_stage s rest))
stages-repeat s rest after old junk ok empty h =
    let args = cells (joined s (rest ++ (after ∷ []))) junk in
    rw (count-before_empty s rest after ok) (
      stages-before_empty args after junk (suc (count_text bar after)) empty 0 old s rest
        (λ j. ap args (omega arith)) ok (omega arith))
