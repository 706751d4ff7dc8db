-- ===== src/Guess/Setup/Rounds/Served.antt =====
-- Every client meets a fresh game (Assignment2/server.c).
use cs.Prelude.{ℕ, ◌*◌, ◌<◌, ◌≡◌, ◌≢◌, refl, sym, ap, ◌∙◌, true, false, some, List, [], ◌∷◌, All}
use cs.Prelude.Int.{pos, ltb_ℤ}
use cs.Guess.Setup.{ok, Os, Flags, create, create_new}
use cs.Guess.Setup.Segments.{Segment}
use cs.Guess.Setup.Created.{answer, Given}
use cs.Guess.Setup.Server.{Game, all_true, sem_removals, server_cleanup}
use cs.Guess.Setup.Ready.{Obliging, AllOk, IsReady, server_setup-IsReady}
use cs.Guess.Setup.Rounds.{Visit, Left, Round, end_round, serve_client, serve}

-- `shmget` with `IPC_EXCL` gives no segment that it gives in the round without it.
abbrev pub MakesNew : Os → Type 0
MakesNew os =
    (d d' bytes bytes' : ℕ)
    → ltb_ℤ (answer os bytes' create_new d') (pos 0) ≡ false
    → answer os bytes create d ≢ answer os bytes' create_new d'

-- The segment of the semaphores is no other one.
abbrev pub HasNew : Game → Type 0
HasNew g = (g.third.segment.id ≢ g.first.segment.id) × (g.third.segment.id ≢ g.second.segment.id)

-- A client that asks for some threads, in a round whose calls succeed.
pub record IsWelcome (fuel : ℕ) (v : Visit) : Type 0 where
  pub m : ℕ
  pub some_threads : 0 < m
  pub received : v.calls.received ≡ some m
  pub obliging : Obliging v.os fuel
  pub makes_new : MakesNew v.os
  pub calls : AllOk v.calls m
  pub detached : all_true 3 0 v.calls.detached ≡ true
  pub removed1 : v.calls.removed1 ≡ true
  pub removed2 : v.calls.removed2 ≡ true
  pub removed3 : v.calls.removed3 ≡ true

-- Each round has the number of threads that its client asks for, numbers them from 0, and has its
-- own segment for the semaphores.
abbrev pub AllReady : (n : ℕ) → List Visit → List Round → Type 0
AllReady n [] [] = Unit
AllReady n [] (r ∷ rounds) = ⊥
AllReady n (v ∷ visits) [] = ⊥
AllReady n (v ∷ visits) (r ∷ rounds) =
    (r.thread_no ≡ 0)
    × ((m : ℕ) × (v.calls.received ≡ some m) × IsReady v.os n m r.game)
    × HasNew r.game
    × AllReady n visits rounds

given-answer :
    (os : Os) (bytes : ℕ) (flags : Flags) (s : Segment) (g : Given os bytes flags s)
    → s.id ≡ answer os bytes flags g.draw
given-answer os bytes flags s g = g.id_is ∙ ap (λ k. os.shmget g.draw k bytes flags) g.key_is

apart_from_third :
    (os : Os) (bytes bytes' : ℕ) (s s' : Segment)
    → MakesNew os
    → Given os bytes create s
    → Given os bytes' create_new s'
    → s'.id ≢ s.id
apart_from_third os bytes bytes' s s' new g g' same =
    let here = given-answer os bytes create s g in
    let there = given-answer os bytes' create_new s' g' in
    new g.draw g'.draw bytes bytes' (ap (λ x. ltb_ℤ x (pos 0)) (sym there) ∙ g'.valid)
      (sym here ∙ sym same ∙ there)

IsReady-HasNew : (os : Os) (n m : ℕ) (g : Game) → MakesNew os → IsReady os n m g → HasNew g
IsReady-HasNew os n m g new ready = (
  apart_from_third os _ _ g.first.segment g.third.segment new ready.given_first ready.given_third,
  apart_from_third os _ _ g.second.segment g.third.segment new ready.given_second ready.given_third,
)

cleanup-ok :
    (fuel : ℕ) (v : Visit) (m : ℕ)
    → IsWelcome fuel v
    → server_cleanup v.os v.calls m ≡ ok (sem_removals v.os (2 * m) 0)
unfolding server_cleanup
cleanup-ok fuel v m w = rw (w.detached, w.removed1, w.removed2, w.removed3) refl

module _ (fuel n : ℕ) (hn : 0 < n) where
  serve_client-IsReady :
      (v : Visit) (left : Left)
      → left.thread_no ≡ 0
      → (w : IsWelcome fuel v)
      → (r : Round) × (serve_client fuel n v left ≡ ok r)
        × (r.thread_no ≡ 0)
        × IsReady v.os n w.m r.game
  unfolding serve_client
  serve_client-IsReady v left e w =
      let (g, q, ready) =
        server_setup-IsReady fuel v.os w.obliging v.calls n w.m left.m left.draw v.junk hn
          w.some_threads w.received w.calls in
      (
        record { game = g; thread_no = left.thread_no },
        rw (q, cleanup-ok fuel v g.m w) refl,
        e,
        ready,
      )

  -- However many clients come, each with at least one thread and in rounds whose calls succeed,
  -- the server serves all of them: every one meets a string of `n` letters, segments that hold
  -- the start of the game for its number of threads, and threads that are numbered from 0. Where
  -- `shmget`, called without `IPC_EXCL`, has returned one segment for the guesses and the
  -- answers, the guesses start with bytes 0 instead of digits 0.
  pub serve-AllReady :
      (visits : List Visit) (left : Left)
      → left.thread_no ≡ 0
      → All (IsWelcome fuel) visits
      → (rounds : List Round) × (serve fuel n visits left ≡ ok rounds) × AllReady n visits rounds
  unfolding serve end_round
  serve-AllReady [] left e h = ([], refl, tt)
  serve-AllReady (v ∷ visits) left e (w, ws) =
      let (r, q, zero_no, ready) = serve_client-IsReady v left e w in
      let (rounds, q', all) = serve-AllReady visits (end_round r) refl ws in
      (
        r ∷ rounds,
        rw (q, q') refl,
        (
          zero_no,
          (w.m, w.received, ready),
          IsReady-HasNew v.os n w.m r.game w.makes_new ready,
          all,
        ),
      )
