-- ===== src/Shell/Tests/Typed.antt =====
-- Lines that are typed, up to the commands that run (Assignment1/mysh.c).
use mathlib.Core.Option.{some-injective}
use cs.Prelude.{◌≡◌, refl, true, false, some, List, [], ◌∷◌, arith, All}
use cs.Shell.Text.{Text, codes}
use cs.Shell.Parse.Words.{Line, end, word}
use cs.Shell.Pipe.Stages.{IsStage, bar}
use cs.Shell.Redirect.{create, append, append_or_create}
use cs.Shell.Redirect.Files.{IsBeyond, inherited, opened, Table}
use cs.Shell.Redirect.Command.{Item, redir}
use cs.Shell.History.{no_history, remember}
use cs.Shell.Child.{Kernel}
use cs.Shell.Spawn.{prints, not_found, Exec, program}
use cs.Shell.Spawn.Wired.{Wired}
use cs.Shell.Round.{Results, Round, in_child, shell_round}
use cs.Shell.Typed.{Leftover, child_round}
use cs.Shell.Child.Redirected.{AreBeyond}
use cs.Prelude.{none}
use cs.Shell.Typed.Pipeline.{typed_pipeline-Wired}
use cs.Shell.Typed.Redirected.{typed_command-redirected}
use cs.Shell.Typed.History.{Reopens}
use cs.Shell.Typed.Session.{IsStaying, session_history}
use cs.Shell.Round.Session.{main_loop}
use cs.Shell.Round.Session.Complete.{IsCalm}
use cs.Shell.Parse.{parse_arguments}
use cs.Shell.Tests.Memory.{results}
use cs.Prelude.{◌++◌}
use cs.Shell.Typed.NotFound.{typed_command-not_found}
use cs.Shell.Tests.{no_junk}
use cs.Shell.Tests.Processes.{own_files, fresh-IsFresh, processes-NoFailure, kernel, new_shell}

-- The child of a shell without earlier commands.
abbrev leftover : Leftover
leftover = record { old = []; behind = no_junk; junk = no_junk }

abbrev child : Results
child = record { chdir_ok = true; forked = in_child; wait_ok = true }

at_three : IsBeyond (some 3)
at_three fd e = omega (arith, some-injective 3 fd e)

all_three : AreBeyond kernel
all_three = record { input = at_three; output = at_three; append = at_three }

-- The commands so far, sorted.
abbrev piped : Text
piped = codes "history | sort\n"

abbrev piped_words : List Text
piped_words = codes "history" ∷ bar ∷ codes "sort" ∷ []

piped-Line : Line piped piped_words
piped-Line =
    word (codes "history") 32 (refl, refl) refl
      (word bar 32 (refl, refl) refl (word (codes "sort") 10 (refl, refl) refl end refl) refl) refl

piped-IsStage : All IsStage ((codes "history" ∷ []) ∷ (codes "sort" ∷ []) ∷ [])
piped-IsStage = (
  record { some_arg = omega arith; no_bar = (refl, tt) },
  (record { some_arg = omega arith; no_bar = (refl, tt) }, tt),
)

typed_pipeline-Wired_example :
    (q : Round) × (l : List Exec) × (shell_round child (some piped) new_shell ≡ some q)
    × (child_round kernel leftover own_files q ≡ some l)
    × Wired
        (record { cell = (remember piped no_history).cell; exec_ok = λ temp. true })
        0
        (some (inherited 0))
        (some (inherited 1))
        (codes "history" ∷ [])
        ((codes "sort" ∷ []) ∷ [])
        l
typed_pipeline-Wired_example =
    typed_pipeline-Wired kernel leftover own_files piped piped_words (codes "history" ∷ [])
      ((codes "sort" ∷ []) ∷ []) child new_shell fresh-IsFresh processes-NoFailure at_three
      piped-Line (omega arith, omega arith) refl refl piped-IsStage (refl, (refl, (refl, tt))) refl

-- One program, which has the bar among its arguments.
abbrev mixed : Text
mixed = codes "cat < a | sort >> b &\n"

abbrev mixed_words : List Text
mixed_words =
    codes "cat"
    ∷ codes "<"
    ∷ codes "a"
    ∷ bar
    ∷ codes "sort"
    ∷ codes ">>"
    ∷ codes "b"
    ∷ codes "&"
    ∷ []

abbrev mixed_items : List Item
mixed_items =
    redir (codes "<") (codes "a")
    ∷ Item.word bar
    ∷ Item.word (codes "sort")
    ∷ redir (codes ">>") (codes "b")
    ∷ []

mixed-Line : Line mixed mixed_words
mixed-Line =
    word (codes "cat") 32 (refl, refl) refl
      (word (codes "<") 32 (refl, refl) refl
        (word (codes "a") 32 (refl, refl) refl
          (word bar 32 (refl, refl) refl
            (word (codes "sort") 32 (refl, refl) refl
              (word (codes ">>") 32 (refl, refl) refl
                (word (codes "b") 32 (refl, refl) refl
                  (word (codes "&") 10 (refl, refl) refl end refl) refl)
                refl)
              refl)
            refl)
          refl)
        refl)
      refl

-- The file `a` cannot be opened.
abbrev closed_kernel : Kernel
closed_kernel = record kernel { fd0 = none }

typed_command-redirected_example :
    (q : Round) × (files : Table) × (shell_round child (some mixed) new_shell ≡ some q)
    × (child_round closed_kernel leftover own_files q
        ≡ some
            (record { runs = program (codes "cat" ∷ bar ∷ codes "sort" ∷ []); table = files } ∷ []))
    × (files 0 ≡ some (inherited 0))
    × (files 1 ≡ some (opened append (some (codes "b"))))
typed_command-redirected_example =
    typed_command-redirected closed_kernel leftover own_files mixed mixed_words
      (Item.word (codes "cat")) mixed_items child new_shell
      (record { input = λ fd e. absurd (cc e); output = at_three; append = at_three }) mixed-Line
      (omega arith, omega arith) refl refl
      (refl, ((refl, refl), (refl, (refl, ((refl, refl), tt))))) refl refl refl

-- The commands so far, into a file.
abbrev kept : Text
kept = codes "history >> f\n"

abbrev kept_words : List Text
kept_words = codes "history" ∷ codes ">>" ∷ codes "f" ∷ []

kept-Line : Line kept kept_words
kept-Line =
    word (codes "history") 32 (refl, refl) refl
      (word (codes ">>") 32 (refl, refl) refl (word (codes "f") 10 (refl, refl) refl end refl) refl)
      refl

-- There is no program `history`.
abbrev bare_kernel : Kernel
bare_kernel = record kernel { exec_ok = λ temp. false }

bare_three : AreBeyond bare_kernel
bare_three = record { input = at_three; output = at_three; append = at_three }

bare-Reopens : Reopens bare_kernel 3 4 5
bare-Reopens = record {
  new = record {
    new_saved = omega arith;
    new1 = omega arith;
    new2 = omega arith;
    apart1 = omega arith;
    apart2 = omega arith;
  };
  copy = refl;
  output = refl;
  append = refl;
}

-- Three lines before it, one of them blank.
abbrev morning : List (Results × Text)
morning = (results, codes "ls\n") ∷ (results, codes "\n") ∷ (results, codes "cd ..\n") ∷ []

morning-IsCalm : All IsCalm morning
morning-IsCalm = (
  ((omega arith, omega arith), (7, refl), refl),
  (
    ((omega arith, omega arith), (7, refl), refl),
    (((omega arith, omega arith), (7, refl), refl), tt),
  ),
)

morning-IsStaying : All IsStaying morning
unfolding parse_arguments
morning-IsStaying = (refl, (refl, (refl, tt)))

session_history_example :
    (q : Round) × (x : Exec) × (main_loop (morning ++ ((child, kept) ∷ [])) new_shell ≡ some q)
    × (child_round bare_kernel leftover own_files q ≡ some (x ∷ []))
    × (x.runs
        ≡ prints ((1, codes "ls\n") ∷ (2, codes "cd ..\n") ∷ (3, codes "history >> f\n") ∷ []))
    × (x.table 1 ≡ some (opened append_or_create (some (codes "f"))))
session_history_example =
    session_history bare_kernel leftover own_files morning [] kept kept_words
      (redir (codes ">>") (codes "f") ∷ []) child new_shell 3 3 3 4 5 refl morning-IsCalm
      morning-IsStaying (refl, (refl, (refl, (refl, tt)))) (omega arith)
      (record { beyond = bare_three; output = refl; append = refl }) bare-Reopens kept-Line
      (omega arith, omega arith) refl ((refl, refl), tt) (refl, (refl, tt)) refl refl refl

-- A name that is misspelt, with its output in a file.
abbrev misspelt : Text
misspelt = codes "sl -a > f\n"

abbrev misspelt_words : List Text
misspelt_words = codes "sl" ∷ codes "-a" ∷ codes ">" ∷ codes "f" ∷ []

misspelt-Line : Line misspelt misspelt_words
misspelt-Line =
    word (codes "sl") 32 (refl, refl) refl
      (word (codes "-a") 32 (refl, refl) refl
        (word (codes ">") 32 (refl, refl) refl (word (codes "f") 10 (refl, refl) refl end refl)
          refl)
        refl)
      refl

typed_command-not_found_example :
    (q : Round) × (x : Exec) × (shell_round child (some misspelt) new_shell ≡ some q)
    × (child_round bare_kernel leftover own_files q ≡ some (x ∷ []))
    × (x.runs ≡ not_found (codes "sl"))
    × (x.table 1 ≡ some (opened create (some (codes "f"))))
typed_command-not_found_example =
    typed_command-not_found bare_kernel leftover own_files misspelt misspelt_words (codes "sl")
      (Item.word (codes "-a") ∷ redir (codes ">") (codes "f") ∷ []) child new_shell bare_three
      misspelt-Line (omega arith, omega arith) refl refl (refl, (refl, ((refl, refl), tt)))
      (refl, (refl, (refl, (refl, tt)))) refl refl (λ args. refl) refl
