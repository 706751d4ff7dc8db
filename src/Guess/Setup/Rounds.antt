-- ===== src/Guess/Setup/Rounds.antt =====
-- The loop of the server over its clients (`main` of Assignment2/server.c).
pub mod Served
use cs.Prelude.{ℕ, List, [], ◌∷◌}
use cs.Guess.Setup.{Result, ok, ◌>>=◌, Os}
use cs.Guess.Setup.Server.{Calls, Game, server_setup, server_cleanup}

-- A client that comes, with what the calls of its round return.
pub record Visit : Type 0 where
  pub os : Os
  pub calls : Calls
  pub junk : ℕ → ℕ

-- What one round leaves to the next: `M`, the number of the next `rand`, and `thread_no`.
pub record Left : Type 0 where
  pub m : ℕ
  pub draw : ℕ
  pub thread_no : ℕ

-- What the threads of a round start from: the game, and `thread_no`.
pub record Round : Type 0 where
  pub game : Game
  pub thread_no : ℕ

-- The end of the round; the threads have added 1 to `thread_no` each.
unfoldable pub end_round : Round → Left
end_round r = record { m = r.game.m; draw = r.game.third.segment.draws; thread_no = 0 }

unfoldable pub serve_client : ℕ → (n : ℕ) → Visit → Left → Result Round
serve_client fuel n v left = do
  game ← server_setup fuel v.os v.calls n left.m v.junk left.draw
  removals ← server_cleanup v.os v.calls game.m
  ok (record { game = game; thread_no = left.thread_no })

-- The rounds for the clients of the list, one behind the other.
unfoldable pub serve : ℕ → (n : ℕ) → List Visit → Left → Result (List Round)
serve fuel n [] left = ok []
serve fuel n (v ∷ l) left = do
  round ← serve_client fuel n v left
  rest ← serve fuel n l (end_round round)
  ok (round ∷ rest)
