-- ===== src/Guess/Tests/Served.antt =====
-- A game of the server's first round, played to its end (Assignment2/server.c,
-- Assignment2/client.c).
use cs.Prelude.{ℕ, ◌+◌, ◌-◌, refl, true, some}
use cs.Prelude.Int.{pos}
use cs.Guess.Memory.{Shared}
use cs.Guess.Server.{Server}
use cs.Guess.Client.{Client}
use cs.Guess.System.{System, IsFresh}
use cs.Guess.Setup.{Os, create, create_new, existing}
use cs.Guess.Setup.Segments.{Filled, create_string, fill_loop}
use cs.Guess.Setup.Filled.{fill_loop-below}
use cs.Guess.Setup.Server as Setup
use cs.Guess.Setup.Rounds as Rounds
use cs.Guess.Setup.Rounds.{Visit, Left, Round}
use cs.Guess.Tests.{Run, play, round_robin}

-- `rand` returns 53, 52 and so on, which are the letters B and A; a segment has its key for id,
-- unless it is a new one.
abbrev os : Os
os = record {
  rand = λ i. 53 - i;
  ftok = λ p. pos p;
  shmget = λ draw key bytes flags. elim flags [
    | create ↦ key
    | create_new ↦ pos (1000 + draw)
    | existing ↦ key
  ];
  shmat = λ id. some 4096;
  contents = λ at i. 5;
  sem_init = λ i. pos 0;
  sem_size = 16;
}

abbrev calls : Setup.Calls
calls = record {
  socket_ok = true;
  bind_ok = true;
  listen_ok = true;
  accept_ok = true;
  received = some 2;
  semid_ok = true;
  send_n_ok = true;
  send_keys_ok = true;
  threads_ok = true;
  created = λ i. true;
  detached = λ i. true;
  removed1 = true;
  removed2 = true;
  removed3 = true;
}

abbrev visit : Visit
visit = record { os = os; calls = calls; junk = λ i. 7 }

abbrev left : Left
left = record { m = 0; draw = 0; thread_no = 0 }

abbrev secret : ℕ → ℕ
secret = create_string 2 0 os.rand visit.junk

abbrev segment : (key id cells v draws : ℕ) → Filled
segment key id cells v draws = record {
  segment = record { key = pos key; id = pos id; draws = draws };
  cells = fill_loop cells 0 v (os.contents 4096);
}

abbrev round : Round
round = record {
  game = record {
    n = 2;
    m = 2;
    secret = secret;
    first = segment 51 51 2 b'0' 3;
    second = segment 50 50 2 0 4;
    third = segment 49 1004 4 0 5;
  };
  thread_no = 0;
}

abbrev start : Shared
start = record {
  shm1 = round.game.first.cells;
  shm2 = round.game.second.cells;
  sem = round.game.third.cells;
  server_no = 0;
  client_no = 0;
}

round-IsFresh : IsFresh 2 2 start
round-IsFresh = record {
  guesses = λ j h. fill_loop-below 2 b'0' (os.contents 4096) j h;
  answers = λ j h. fill_loop-below 2 0 (os.contents 4096) j h;
  semaphores = λ j h. fill_loop-below 4 0 (os.contents 4096) j h;
  server_no = refl;
  client_no = refl;
}

abbrev played : Run 2 2 secret start
played = play 2 2 secret round-IsFresh (round_robin 40)
