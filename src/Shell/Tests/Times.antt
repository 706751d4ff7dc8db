-- ===== src/Shell/Tests/Times.antt =====
-- The times of a line at concrete clocks (Assignment1/mysh.c).
use cs.Prelude.{ℕ, ◌+◌, ◌*◌, ◌/◌, ◌-◌, ◌≡◌, refl, true, false, some, [], ◌∷◌, arith}
use cs.Prelude.Int.{ℤ, pos, pos_part, neg_part}
use cs.Shell.Text.{Text, codes}
use cs.Shell.Parse.{Parsed, parse_arguments}
use cs.Shell.Round.{Round, shell_round}
use cs.Shell.Times.{Double, Tms, Clocks, Times, printed_times}
use cs.Shell.Times.Counted.{IsExact, printed_times-counted}
use cs.Shell.Tests.Memory.{results, new_shell}

-- Natural numbers in the place of `double`.
abbrev whole : Double
whole = record {
  Number = ℤ;
  of_int = λ x. x;
  plus = λ x y. pos (pos_part x + pos_part y);
  minus = λ x y. pos (pos_part x - pos_part y);
  over = λ x y. pos (pos_part x / pos_part y);
}

whole-IsExact : IsExact whole
whole-IsExact = record { minus_lem = λ a b h g. refl }

abbrev timed : Text
timed = codes "mytime ls -al\n"

abbrev timed_parsed : Parsed
timed_parsed = record { args = codes "ls" ∷ codes "-al" ∷ []; time_flag = true; ampersand = false }

timed_runs : parse_arguments timed ≡ some timed_parsed
unfolding parse_arguments
timed_runs = refl

-- The process 7 takes 300 ticks for itself and 100 of the system's.
abbrev ticks : ℕ → Tms
ticks pid = record { cutime = 300; cstime = 100 }

abbrev clocks : Clocks
clocks = record {
  start_tms = record { cutime = 20; cstime = 10 };
  end_tms = record { cutime = 320; cstime = 110 };
  tv1 = record { tv_sec = 50; tv_usec = 900000 };
  tv2 = record { tv_sec = 55; tv_usec = 100000 };
  clktck = pos 100;
}

printed_times-counted_example :
    (q : Round) × (t : Times whole) × (x y : ℤ) × (shell_round results (some timed) new_shell
      ≡ some q)
    × (printed_times whole clocks q.events ≡ t ∷ [])
    × (t.cuser ≡ pos 3)
    × (t.csystem ≡ pos 1)
    × (t.realtime ≡ pos (pos_part x + pos_part y / 1000000))
    × (pos_part x * 1000000 + pos_part y + 50900000 ≡ neg_part x * 1000000 + neg_part y + 55100000)
printed_times-counted_example =
    printed_times-counted whole clocks ticks results timed new_shell timed_parsed whole-IsExact
      (omega arith, omega arith) timed_runs
      (record {
        user = omega arith;
        system = omega arith;
        user_range = omega arith;
        system_range = omega arith;
      })
