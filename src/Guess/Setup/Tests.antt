-- ===== src/Guess/Setup/Tests.antt =====
-- A system that refuses its first key, and the start of a game on it (Assignment2/server.c and
-- Assignment2/client.c).
use cs.Prelude.{
  ℕ, ◌+◌, ◌*◌, ◌%◌, ◌<◌, ◌≡◌, ◌≢◌, refl, sym, ap, ◌∙◌, true, false, Bool-cases, inl, inr, Option,
  none, some, List, [], ◌∷◌, arith, if◌then◌else◌, ◌==◌,
}
use cs.Prelude.Int.{ℤ, pos, minus_one, pos_part, ltb_ℤ}
use cs.Guess.Setup.{Result, ok, out_of_fuel, Os, Flags, create, create_new, existing}
use cs.Guess.Setup.Created.{answer}
use cs.Guess.Setup.Server as Server
use cs.Guess.Setup.Server.{Game, server_setup}
use cs.Guess.Setup.Client as Client
use cs.Guess.Setup.Client.{Joined, client_setup, three}
use cs.Guess.Setup.Ready.{Obliging, AllOk, no_threads}
use cs.Guess.Setup.Rounds.{Visit, Round, serve}
use cs.Guess.Setup.Rounds.Served.{IsWelcome, MakesNew, AllReady, serve-AllReady}
use cs.Guess.Setup.Agreed.{SharedWith, Exchanged, Agrees, setup-Agrees}

-- A segment has its key for its id; there is none of no bytes.
abbrev give : ℤ → ℕ → ℤ
give key bytes = if bytes == 0 then minus_one else key

abbrev os : Os
os = record {
  rand = λ i. i * 7;
  ftok = λ p. pos p;
  shmget = λ draw key bytes flags. give key bytes;
  shmat = λ id. some 4096;
  contents = λ at i. 5;
  sem_init = λ i. pos 0;
  sem_size = 16;
}

-- The same, with a new segment where `IPC_EXCL` asks for one.
abbrev new_os : Os
new_os = record os {
  shmget = λ draw key bytes flags. elim flags [
    | create ↦ give key bytes
    | create_new ↦ pos (1000 + draw)
    | existing ↦ key
  ];
}

new_os-Obliging : Obliging new_os 3
new_os-Obliging = record {
  tries = λ bytes flags draw h. (0, omega arith, valid bytes flags draw h);
  attaches = λ id h. (4096, refl);
  sem_bytes = omega arith;
}
  where
    valid :
        (bytes : ℕ) (flags : Flags) (draw : ℕ)
        → 0 < bytes
        → ltb_ℤ (answer new_os bytes flags (draw + 0)) (pos 0) ≡ false
    valid bytes create draw h = ground arith
    valid bytes create_new draw h = ground arith
    valid bytes existing draw h = ground arith

pos-small : (a b : ℕ) → a < 100 → pos a ≢ pos (1000 + b)
pos-small a b h e = let same : a ≡ 1000 + b = ap pos_part e in omega arith

new_os-MakesNew : MakesNew new_os
new_os-MakesNew d d' bytes bytes' valid e = elim (Bool-cases (bytes == 0)) [
  | inl t ↦
      let lost : give (pos ((d * 7) % 100)) bytes ≡ minus_one = rw t refl in
      let same : minus_one ≡ pos (1000 + d') = sym lost ∙ e in cc same
  | inr f ↦ pos-small ((d * 7) % 100) d' (omega arith) (ground (arith, e, f))
]

os-Obliging : Obliging os 3
os-Obliging = record {
  tries = λ bytes flags draw h. (0, omega arith, ground arith);
  attaches = λ id h. (4096, refl);
  sem_bytes = omega arith;
}

abbrev server_calls : ℕ → Server.Calls
server_calls m = record {
  socket_ok = true;
  bind_ok = true;
  listen_ok = true;
  accept_ok = true;
  received = some m;
  semid_ok = true;
  send_n_ok = true;
  send_keys_ok = true;
  threads_ok = true;
  created = λ i. true;
  detached = λ i. true;
  removed1 = true;
  removed2 = true;
  removed3 = true;
}

two-AllOk : AllOk (server_calls 2) 2
unfolding Server.all_true
two-AllOk = record {
  accepted = refl;
  semid = refl;
  sent_n = refl;
  sent_keys = refl;
  threads = refl;
  all_created = refl;
}

none-AllOk : AllOk (server_calls 0) 0
unfolding Server.all_true
none-AllOk = record {
  accepted = refl;
  semid = refl;
  sent_n = refl;
  sent_keys = refl;
  threads = refl;
  all_created = refl;
}

-- Two clients, with two threads each.
abbrev visit : Visit
visit = record { os = new_os; calls = server_calls 2; junk = λ i. 9 }

visit-IsWelcome : IsWelcome 3 visit
unfolding Server.all_true
visit-IsWelcome = record {
  m = 2;
  some_threads = omega arith;
  received = refl;
  obliging = new_os-Obliging;
  makes_new = new_os-MakesNew;
  calls = two-AllOk;
  detached = refl;
  removed1 = refl;
  removed2 = refl;
  removed3 = refl;
}

serve-AllReady_example :
    (rounds : List Round) × (serve 3 6
        (visit ∷ visit ∷ [])
        (record { m = 0; draw = 0; thread_no = 0 })
      ≡ ok rounds)
    × AllReady 6 (visit ∷ visit ∷ []) rounds
serve-AllReady_example =
    serve-AllReady 3 6 (omega arith) (visit ∷ visit ∷ [])
      (record { m = 0; draw = 0; thread_no = 0 }) refl (visit-IsWelcome, (visit-IsWelcome, tt))

no_threads_example : server_setup 3 os (server_calls 0) 6 0 (λ i. 9) 0 ≡ out_of_fuel
no_threads_example =
    no_threads 3 os os-Obliging (server_calls 0) 6 0 0 (λ i. 9) (omega arith) refl none-AllOk
      (λ d. refl)

os-SharedWith : SharedWith os os
os-SharedWith = record {
  finds = λ draw call key bytes flags h. refl;
  attaches = λ id h. (4096, refl);
  same_sem = refl;
}

-- The keys of the segments come from the draws 6, 7 and 8.
abbrev client_calls : Client.Calls
client_calls = record {
  socket_ok = true;
  connect_ok = true;
  send_ok = true;
  received_n = some 6;
  received_keys = some (three (pos 42) (pos 49) (pos 56));
  threads_ok = true;
  created = λ i. true;
  detached = λ i. true;
}

sent_n : Result Game → Option ℕ
sent_n (ok g) = some g.n
sent_n _ = none

sent_keys : Result Game → Option (ℕ → ℤ)
sent_keys (ok g) = some (three g.first.segment.key g.second.segment.key g.third.segment.key)
sent_keys _ = none

client_calls-Exchanged :
    (g : Game)
    → server_setup 3 os (server_calls 2) 6 0 (λ i. 9) 0 ≡ ok g
    → Exchanged client_calls 2 g
unfolding server_setup Server.all_true sent_n sent_keys
client_calls-Exchanged g e = record {
  socket = refl;
  connected = refl;
  sent = refl;
  got_n = ap sent_n e;
  got_keys = ap sent_keys e;
  threads = refl;
  all_created = refl;
}

setup-Agrees_example :
    (g : Game) × (j : Joined) × (server_setup 3 os (server_calls 2) 6 0 (λ i. 9) 0 ≡ ok g)
    × (client_setup os client_calls 2 ≡ ok j)
    × Agrees g j
setup-Agrees_example =
    setup-Agrees os os os-SharedWith 3 (server_calls 2) client_calls 6 2 0 0 (λ i. 9) os-Obliging
      (omega arith) (omega arith) refl two-AllOk client_calls-Exchanged
