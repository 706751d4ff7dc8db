-- ===== src/Shell/Times.antt =====
-- `timeCounter` and `printTime` (Assignment1/mysh.c): the times of a round.
pub mod Counted
use cs.Prelude.{ℕ, ◌+◌, ◌-◌, List, [], ◌∷◌, if◌then◌else◌, ltb}
use cs.Prelude.Int.{ℤ, pos, negsuc}
use cs.Shell.Round.{Event, print_time}

-- `SEC`.
abbrev pub sec : ℕ
sec = 1000000

-- The type `double` with the operations that the source uses.
pub record Double : Type 1 where
  pub Number : Type 0
  pub of_int : ℤ → Number
  pub plus : Number → Number → Number
  pub minus : Number → Number → Number
  pub over : Number → Number → Number

-- `struct timeval`, and the two fields of `struct tms` that are read: the ticks of the children
-- that were waited for.
pub record Timeval : Type 0 where
  pub tv_sec : ℕ
  pub tv_usec : ℕ

pub record Tms : Type 0 where
  pub cutime : ℕ
  pub cstime : ℕ

-- What `times` and `gettimeofday` return at the start of a round and in `timeCounter`, and what
-- `sysconf` returns.
pub record Clocks : Type 0 where
  pub start_tms : Tms
  pub end_tms : Tms
  pub tv1 : Timeval
  pub tv2 : Timeval
  pub clktck : ℤ

-- A difference of numbers of type `time_t` or `suseconds_t`, which are signed.
unfoldable pub difference : ℕ → ℕ → ℤ
difference a b = if ltb a b then negsuc (b - (a + 1)) else pos (a - b)

module _ (d : Double) where
  open d use {Number, of_int, plus, minus, over}

  pub record Times : Type 0 where
    pub realtime : Number
    pub cuser : Number
    pub csystem : Number

  unfoldable pub time_counter : Clocks → Times
  unfolding difference
  time_counter c = record {
    realtime =
        plus (of_int (difference c.tv2.tv_sec c.tv1.tv_sec))
          (over (of_int (difference c.tv2.tv_usec c.tv1.tv_usec)) (of_int (pos sec)));
    cuser =
        over (minus (of_int (pos c.end_tms.cutime)) (of_int (pos c.start_tms.cutime)))
          (of_int c.clktck);
    csystem =
        over (minus (of_int (pos c.end_tms.cstime)) (of_int (pos c.start_tms.cstime)))
          (of_int c.clktck);
  }

  -- The times that a round prints.
  unfoldable pub printed_times : Clocks → List Event → List Times
  unfolding time_counter
  printed_times c [] = []
  printed_times c (print_time ∷ l) = time_counter c ∷ printed_times c l
  printed_times c (_ ∷ l) = printed_times c l
