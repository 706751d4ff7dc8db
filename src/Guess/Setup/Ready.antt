-- ===== src/Guess/Setup/Ready.antt =====
-- What the server hands to its threads (`main` of Assignment2/server.c).
use cs.Prelude.{
  ℕ, ◌+◌, ◌*◌, ◌<◌, ◌≡◌, refl, true, false, some, arith, Bool-cases, inl, inr, if◌then◌else◌,
}
use cs.Prelude.Int.{ℤ, pos, ltb_ℤ}
use cs.Guess.Setup.{ok, out_of_fuel, ◌>>=◌, Os, Flags, create, create_new}
use cs.Guess.Setup.Segments.{
  Filled, create_string, create_filled, create_first, create_second, create_third,
}
use cs.Guess.Setup.Server.{
  Calls, Game, received_m, all_true, create_threads, create_game, server_setup, is_same,
  under_second,
}
use cs.Guess.Setup.Filled.{is_letter, create_string-letter, create_string-end, fill_loop-below}
use cs.Guess.Setup.Created.{answer, Given, create_filled-Given, segment_loop-endless}

-- Among any `fuel` draws there is one whose key has room for a segment that is not empty, and
-- every segment can be attached.
pub record Obliging (os : Os) (fuel : ℕ) : Type 0 where
  pub tries :
      (bytes : ℕ) (flags : Flags) (draw : ℕ)
      → 0 < bytes
      → (k : ℕ) × (k < fuel) × (ltb_ℤ (answer os bytes flags (draw + k)) (pos 0) ≡ false)
  pub attaches : (id : ℤ) → ltb_ℤ id (pos 0) ≡ false → (at : ℕ) × (os.shmat id ≡ some at)
  pub sem_bytes : 0 < os.sem_size

-- The other calls of the round succeed.
pub record AllOk (c : Calls) (m : ℕ) : Type 0 where
  pub accepted : c.accept_ok ≡ true
  pub semid : c.semid_ok ≡ true
  pub sent_n : c.send_n_ok ≡ true
  pub sent_keys : c.send_keys_ok ≡ true
  pub threads : c.threads_ok ≡ true
  pub all_created : all_true m 0 c.created ≡ true

-- The string is a string of `n` letters, the segments are those that `shmget` has given for their
-- keys, and within their bounds they hold what the game starts from; but where `shmget` has
-- returned the same segment for the guesses and the answers, the guesses are bytes 0.
pub record IsReady (os : Os) (n m : ℕ) (g : Game) : Type 0 where
  pub same_n : g.n ≡ n
  pub same_m : g.m ≡ m
  pub letters : (j : ℕ) → j < n → is_letter (g.secret j) ≡ true
  pub ends : g.secret n ≡ 0
  pub guesses : (j : ℕ) → j < n → g.first.cells j ≡ (if is_same g.first g.second then 0 else b'0')
  pub answers : (j : ℕ) → j < n → g.second.cells j ≡ 0
  pub semaphores : (j : ℕ) → j < 2 * m → g.third.cells j ≡ 0
  pub given_first : Given os n create g.first.segment
  pub given_second : Given os (n * 4) create g.second.segment
  pub given_third : Given os (2 * m * os.sem_size) create_new g.third.segment

under_second-cells :
    (n : ℕ) (a b : Filled) (j : ℕ)
    → j < n
    → a.cells j ≡ b'0'
    → (under_second n a b).cells j ≡ (if is_same a b then 0 else b'0')
unfolding under_second
under_second-cells n a b j h e = elim (Bool-cases (is_same a b)) [
  | inl t ↦ rw t (fill_loop-below (n * 4) 0 a.cells j (omega arith))
  | inr f ↦ rw f e
]

module _ (fuel : ℕ) (os : Os) (good : Obliging os fuel) where
  -- A segment that is not empty is created, and holds the value in its cells.
  created :
      (bytes : ℕ) (flags : Flags) (size v draw : ℕ)
      → 0 < bytes
      → (f : Filled) × (create_filled fuel os bytes flags size v draw ≡ ok f)
        × Given os bytes flags f.segment
        × ((j : ℕ) → j < size → f.cells j ≡ v)
  created bytes flags size v draw h =
      let (k, lt, e) = good.tries bytes flags draw h in
      let (f, q, g, (at, c)) =
        create_filled-Given fuel os bytes flags size v draw k lt e good.attaches in
      (f, q, g, λ j b. rw c (fill_loop-below size v (os.contents at) j b))

  create_game-IsReady :
      (n m draw0 draw : ℕ) (junk : ℕ → ℕ)
      → 0 < n
      → 0 < m
      → (g : Game) × (create_game fuel os n m (create_string n draw0 os.rand junk) draw ≡ ok g)
        × IsReady os n m g
  unfolding create_game create_first create_second create_third under_second
  create_game-IsReady n m draw0 draw junk hn hm =
      let positive : 0 < 2 * m * os.sem_size = grind (arith, good.sem_bytes) in
      let (a, qa, ga, ca) = created n create n b'0' draw hn in
      let (b, qb, gb, cb) = created (n * 4) create n 0 a.segment.draws (omega arith) in
      let (c, qc, gc, cc') =
        created (2 * m * os.sem_size) create_new (2 * m) 0 b.segment.draws positive in
      (
        record {
          n = n;
          m = m;
          secret = create_string n draw0 os.rand junk;
          first = under_second n a b;
          second = b;
          third = c;
        },
        rw (qa, ◌>>=◌, qb, qc),
        record {
          same_n = refl;
          same_m = refl;
          letters = λ j h. create_string-letter n draw0 os.rand junk j h;
          ends = create_string-end n draw0 os.rand junk;
          guesses = λ j h. under_second-cells n a b j h (ca j h);
          answers = cb;
          semaphores = cc';
          given_first = ga;
          given_second = gb;
          given_third = gc;
        },
      )

  -- With a client that asks for at least one thread and calls that succeed, the server gets to
  -- the point where its threads are created, with a string of `n` letters and the three segments
  -- of the start of the game.
  pub server_setup-IsReady :
      (c : Calls) (n m m' draw : ℕ) (junk : ℕ → ℕ)
      → 0 < n
      → 0 < m
      → c.received ≡ some m
      → AllOk c m
      → (g : Game) × (server_setup fuel os c n m' junk draw ≡ ok g) × IsReady os n m g
  unfolding server_setup create_threads received_m
  server_setup-IsReady c n m m' draw junk hn hm r calls =
      let (g, q, ready) = create_game-IsReady n m draw (draw + n) junk hn hm in
      (
        g,
        rw (
          calls.accepted, calls.semid, calls.sent_n, r, q, calls.sent_keys, calls.threads,
          ready.same_m, calls.all_created,
        ),
        ready,
      )

  third-endless :
      (size v draw : ℕ)
      → ((d : ℕ) → ltb_ℤ (answer os 0 create_new d) (pos 0) ≡ true)
      → create_filled fuel os (2 * 0 * os.sem_size) create_new size v draw ≡ out_of_fuel
  unfolding create_filled
  third-endless size v draw refused =
      let empty : 2 * 0 * os.sem_size ≡ 0 = omega arith in
      rw (empty, segment_loop-endless fuel os 0 create_new draw refused)

  create_game-endless :
      (n draw : ℕ) (secret : ℕ → ℕ)
      → 0 < n
      → ((d : ℕ) → ltb_ℤ (answer os 0 create_new d) (pos 0) ≡ true)
      → create_game fuel os n 0 secret draw ≡ out_of_fuel
  unfolding create_game create_first create_second create_third
  create_game-endless n draw secret hn refused =
      let (a, qa, _, _) = created n create n b'0' draw hn in
      let (b, qb, _, _) = created (n * 4) create n 0 a.segment.draws (omega arith) in
      rw (qa, ◌>>=◌, qb, third-endless (2 * 0) 0 b.segment.draws refused)

  -- Where a client asks for no thread and `shmget` refuses a segment of no bytes, the server looks
  -- for its third segment for ever.
  pub no_threads :
      (c : Calls) (n m' draw : ℕ) (junk : ℕ → ℕ)
      → 0 < n
      → c.received ≡ some 0
      → AllOk c 0
      → ((d : ℕ) → ltb_ℤ (answer os 0 create_new d) (pos 0) ≡ true)
      → server_setup fuel os c n m' junk draw ≡ out_of_fuel
  unfolding server_setup received_m
  no_threads c n m' draw junk hn r calls refused =
      let endless =
        create_game-endless n (draw + n) (create_string n draw os.rand junk) hn refused in
      rw (calls.accepted, calls.semid, calls.sent_n, r, endless)
