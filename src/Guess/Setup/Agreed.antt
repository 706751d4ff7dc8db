-- ===== src/Guess/Setup/Agreed.antt =====
-- Server and client after the exchange over the socket (`main` of Assignment2/server.c and of
-- Assignment2/client.c).
use cs.Prelude.{ℕ, ◌*◌, ◌<◌, ◌≡◌, refl, sym, ap, ◌∙◌, true, false, some, arith}
use cs.Prelude.Int.{ℤ, pos, ltb_ℤ, ◌==ℤ◌, minus_one}
use cs.Guess.Setup.{ok, ◌>>=◌, Os, Flags, existing}
use cs.Guess.Setup.Segments.{Segment, attach}
use cs.Guess.Setup.Server as Server
use cs.Guess.Setup.Server.{Game, all_true, server_setup}
use cs.Guess.Setup.Client.{
  Calls, Joined, received_or, join_found, join_segment, three, join_game, start_threads,
  client_setup,
}
use cs.Guess.Setup.Created.{Given}
use cs.Guess.Setup.Ready.{Obliging, AllOk, IsReady, server_setup-IsReady}

-- The client's system knows each segment that the server's has given, by its key and size.
pub record SharedWith (server client : Os) : Type 0 where
  pub finds :
      (draw call : ℕ) (key : ℤ) (bytes : ℕ) (flags : Flags)
      → ltb_ℤ (server.shmget draw key bytes flags) (pos 0) ≡ false
      → client.shmget call key bytes existing ≡ server.shmget draw key bytes flags
  pub attaches : (id : ℤ) → ltb_ℤ id (pos 0) ≡ false → (at : ℕ) × (client.shmat id ≡ some at)
  pub same_sem : client.sem_size ≡ server.sem_size

-- The client's calls succeed, and its `recv` stores what the server has sent.
pub record Exchanged (c : Calls) (m : ℕ) (g : Game) : Type 0 where
  pub socket : c.socket_ok ≡ true
  pub connected : c.connect_ok ≡ true
  pub sent : c.send_ok ≡ true
  pub got_n : c.received_n ≡ some g.n
  pub got_keys :
      c.received_keys ≡ some (three g.first.segment.key g.second.segment.key g.third.segment.key)
  pub threads : c.threads_ok ≡ true
  pub all_created : all_true m 0 c.created ≡ true

-- Both processes divide the same string among as many threads, over the same three segments.
pub record Agrees (g : Game) (j : Joined) : Type 0 where
  pub same_n : j.n ≡ g.n
  pub same_m : j.m ≡ g.m
  pub first : j.id 0 ≡ g.first.segment.id
  pub second : j.id 1 ≡ g.second.segment.id
  pub third : j.id 2 ≡ g.third.segment.id

join_segment-Given :
    (server client : Os) (w : SharedWith server client) (call bytes size : ℕ) (flags : Flags)
    (s : Segment)
    → Given server bytes flags s
    → size ≡ bytes
    → (at : ℕ) × (join_segment client call s.key size ≡ ok (s.id, at))
unfolding join_segment join_found
join_segment-Given server client w call bytes size flags s g e =
    let valid : ltb_ℤ (server.shmget g.draw s.key bytes flags) (pos 0) ≡ false =
      ap (λ x. ltb_ℤ x (pos 0)) (sym g.id_is) ∙ g.valid in
    let same : client.shmget call s.key size existing ≡ s.id =
      ap (λ x. client.shmget call s.key x existing) e
      ∙ w.finds g.draw call s.key bytes flags valid
      ∙ sym g.id_is in
    let found : (s.id ==ℤ minus_one) ≡ false = ground (arith, g.valid) in
    let (at, a) = w.attaches s.id g.valid in (at, rw same (rw (found, join_found) (rw (a, attach))))

module _ (server client : Os) (w : SharedWith server client) where
  join_game-Agrees :
      (n m : ℕ) (g : Game)
      → IsReady server n m g
      → (j : Joined) × (join_game client g.n m
            (three g.first.segment.key g.second.segment.key g.third.segment.key)
          ≡ ok j)
        × (j.n ≡ g.n)
        × (j.m ≡ m)
        × (j.id 0 ≡ g.first.segment.id)
        × (j.id 1 ≡ g.second.segment.id)
        × (j.id 2 ≡ g.third.segment.id)
  unfolding join_game
  join_game-Agrees n m g ready =
      let (a, p) =
        join_segment-Given server client w 0 n g.n _ g.first.segment ready.given_first
          ready.same_n in
      let (b, q) =
        join_segment-Given server client w 1 (n * 4) (g.n * 4) _ g.second.segment ready.given_second
          (ap (λ (x : ℕ). x * 4) ready.same_n) in
      let (c, r) =
        join_segment-Given server client w 2 (2 * m * server.sem_size) (2 * m * client.sem_size) _
          g.third.segment ready.given_third (ap (λ (x : ℕ). 2 * m * x) w.same_sem) in
      (
        record {
          n = g.n;
          m = m;
          id = three g.first.segment.id g.second.segment.id g.third.segment.id;
          at = three a b c;
        },
        rw (p, ◌>>=◌, q, r),
        refl,
        refl,
        refl,
        refl,
        refl,
      )

  -- Server and client agree: where the calls of both succeed, each receives what the other has
  -- sent and a key names one segment, both get to their threads, with the same length of the
  -- string, the same number of threads and the same three segments.
  pub setup-Agrees :
      (fuel : ℕ) (sc : Server.Calls) (cc' : Calls) (n m m' draw : ℕ) (junk : ℕ → ℕ)
      → Obliging server fuel
      → 0 < n
      → 0 < m
      → sc.received ≡ some m
      → AllOk sc m
      → ((g : Game) → server_setup fuel server sc n m' junk draw ≡ ok g → Exchanged cc' m g)
      → (g : Game) × (j : Joined) × (server_setup fuel server sc n m' junk draw ≡ ok g)
        × (client_setup client cc' m ≡ ok j)
        × Agrees g j
  unfolding client_setup start_threads received_or
  setup-Agrees fuel sc cc' n m m' draw junk good hn hm r calls sent =
      let (g, q, ready) = server_setup-IsReady fuel server good sc n m m' draw junk hn hm r calls in
      let x = sent g q in
      let (j, p, e_n, e_m, e0, e1, e2) = join_game-Agrees n m g ready in
      (
        g,
        j,
        q,
        rw (x.socket, x.connected, x.sent, x.got_n, x.got_keys, p, x.threads, e_m, x.all_created),
        record {
          same_n = e_n;
          same_m = e_m ∙ sym ready.same_m;
          first = e0;
          second = e1;
          third = e2;
        },
      )
