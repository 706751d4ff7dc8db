-- ===== src/Guess/Won.antt =====
-- The games of the server's rounds, from their first step to their last
-- (Assignment2/server.c, Assignment2/client.c).
use cs.Prelude.{ℕ, ◌≡◌, Option, none, some, if◌then◌else◌}
use cs.Guess.Memory.{Shared}
use cs.Guess.System.{System, IsFresh}
use cs.Guess.Exact.{AreLetters}
use cs.Guess.Setup.Server.{is_same}
use cs.Guess.Setup.Rounds.{Round}

-- The memory that the threads of a round share; the client's `thread_no` is 0. There is none of
-- this form where `shmget` has returned one segment for the guesses and the answers, which then
-- overwrite each other.
abbrev pub round_memory : Round → Option Shared
round_memory r =
    if is_same r.game.first r.game.second
    then none
    else some (record {
      shm1 = r.game.first.cells;
      shm2 = r.game.second.cells;
      sem = r.game.third.cells;
      server_no = r.thread_no;
      client_no = 0;
    })

-- What the server has made ready for the threads of a round.
record Prepared (n : ℕ) (r : Round) : Type 0 where
  memory : (start : Shared) → round_memory r ≡ some start → IsFresh n r.game.m start
  letters : AreLetters n r.game.secret
