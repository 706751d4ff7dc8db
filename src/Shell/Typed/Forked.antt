-- ===== src/Shell/Typed/Forked.antt =====
-- The child of a round has the words of the line and the history with it (Assignment1/mysh.c).
use mathlib.Core.Option.{some-injective}
use cs.Prelude.{◌*◌, ◌≤◌, ◌≡◌, sym, ◌∙◌, ap, true, false, some, List, [], ◌∷◌, length, arith}
use cs.Shell.Text.{Text}
use cs.Shell.Cells.{cells}
use cs.Shell.Parse.{size, Parsed, parse_arguments}
use cs.Shell.Parse.Words.{Line}
use cs.Shell.Parse.Result.{Fits, plain_words, parse_arguments-Line, parse_arguments-parsed}
use cs.Shell.History.{remember}
use cs.Shell.Redirect.Files.{Table}
use cs.Shell.Child.{Kernel, Variables, child_part}
use cs.Shell.Round.{Results, in_child, be_child, Shell, Round, shell_round}
use cs.Shell.Round.Behaviour.{is_external, is_exit, shell_round-Behaves}
use cs.Shell.Typed.{Leftover, child_round}

external-is_exit : (l : List Text) → is_external l ≡ true → is_exit l ≡ false
external-is_exit [] h = cc
external-is_exit (t ∷ l) h = ground arith

-- The variables of the child, once the line is remembered.
abbrev pub variables : Text → Shell → Leftover → Variables
variables b s o = record { cell = (remember b s.history).cell; old = o.old; behind = o.behind }

-- The round of an external command whose `fork` returns 0: it goes on in the child, with the
-- words of the line.
record Forks (b : Text) (ws : List Text) (r : Results) (s : Shell) : Type 0 where
  parsed : Parsed
  round : Round
  understood : parse_arguments b ≡ some parsed
  ran : shell_round r (some b) s ≡ some round
  has_words : parsed.args ≡ plain_words ws
  next : round.next ≡ be_child parsed
  remembered : round.shell.history ≡ remember b s.history

typed-Forks :
    (b : Text) (ws : List Text) (r : Results) (s : Shell)
    → Line b ws
    → Fits b
    → is_external (plain_words ws) ≡ true
    → r.forked ≡ in_child
    → Forks b ws r s
typed-Forks b ws r s line short external forked =
    let (p, q, e, f, behaves) = shell_round-Behaves r b s short in
    let words : p.args ≡ plain_words ws =
      ap (λ (x : Parsed). x.args)
        (some-injective _ _ (sym e ∙ parse_arguments-Line b ws line short)) in
    let ext : is_external p.args ≡ true = rw words external in
    record {
      parsed = p;
      round = q;
      understood = e;
      ran = f;
      has_words = words;
      next = behaves.ended ∙ rw (external-is_exit p.args ext, ext, forked);
      remembered = behaves.remembered;
    }

pub typed_next :
    (b : Text) (ws : List Text) (r : Results) (s : Shell) (q : Round)
    → Line b ws
    → Fits b
    → is_external (plain_words ws) ≡ true
    → r.forked ≡ in_child
    → shell_round r (some b) s ≡ some q
    → (p : Parsed) × (q.next ≡ be_child p)
typed_next b ws r s q line short external forked ran =
    let f = typed-Forks b ws r s line short external forked in
    (f.parsed, ap (λ (x : Round). x.next) (some-injective q f.round (sym ran ∙ f.ran)) ∙ f.next)

module _ (k : Kernel) (o : Leftover) (t : Table) where
  child_round-be_child :
      (q : Round) (p : Parsed)
      → q.next ≡ be_child p
      → child_round k o t q
        ≡ child_part k
            (record { cell = q.shell.history.cell; old = o.old; behind = o.behind })
            (cells p.args o.junk)
            t
  unfolding child_round
  child_round-be_child q p e = rw (e, child_round)

  pub typed_child :
      (b : Text) (ws : List Text) (r : Results) (s : Shell)
      → Line b ws
      → Fits b
      → is_external (plain_words ws) ≡ true
      → r.forked ≡ in_child
      → (q : Round) × (shell_round r (some b) s ≡ some q)
        × (child_round k o t q ≡ child_part k (variables b s o) (cells (plain_words ws) o.junk) t)
        × (2 * length (plain_words ws) ≤ size)
  typed_child b ws r s line short external forked =
      let f = typed-Forks b ws r s line short external forked in
      let (p, e, few, _) = parse_arguments-parsed b short in
      let same : p.args ≡ f.parsed.args =
        ap (λ (x : Parsed). x.args) (some-injective _ _ (sym e ∙ f.understood)) in
      (
        f.round,
        f.ran,
        child_round-be_child f.round f.parsed f.next
            ∙ ap
                (λ h.
                  child_part k (record { cell = h.cell; old = o.old; behind = o.behind })
                    (cells f.parsed.args o.junk) t)
                f.remembered
            ∙ ap (λ a. child_part k (variables b s o) (cells a o.junk) t) f.has_words,
        rw (← f.has_words) (rw (← same) few),
      )
