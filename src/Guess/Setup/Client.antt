-- ===== src/Guess/Setup/Client.antt =====
-- The client around its threads (`main` of Assignment2/client.c).
use cs.Prelude.{ℕ, zero, suc, ◌*◌, Bool, true, false, Option, none, some}
use cs.Prelude.Int.{ℤ, minus_one, ◌==ℤ◌, pos}
use cs.Prelude.Text.{codes}
use cs.Guess.Setup.{Result, ok, stopped, ◌>>=◌, ◌>>◌, must, Os, existing}
use cs.Guess.Setup.Segments.{attach}
use cs.Guess.Setup.Server.{all_true}

-- Whether the calls of `main` succeed, and what the two calls of `recv` store.
pub record Calls : Type 0 where
  pub socket_ok : Bool
  pub connect_ok : Bool
  pub send_ok : Bool
  pub received_n : Option ℕ
  pub received_keys : Option (ℕ → ℤ)
  pub threads_ok : Bool
  pub created : ℕ → Bool
  pub detached : ℕ → Bool

-- What the threads are given.
pub record Joined : Type 0 where
  pub n : ℕ
  pub m : ℕ
  pub id : ℕ → ℤ
  pub at : ℕ → ℕ

-- `N` and the keys are 0 where `recv` fails.
unfoldable pub received_or {ℓ} : {A : Type ℓ} → Option A → A → A
received_or none a = a
received_or (some b) a = b

-- The segment that `shmget` has found, attached.
unfoldable pub join_found : Os → ℤ → Result (ℤ × ℕ)
unfolding attach
join_found os id = elim (id ==ℤ minus_one) [
  | true ↦ stopped 1 (codes "shmget")
  | false ↦ do at ← attach os id; ok (id, at)
]

unfoldable pub join_segment : Os → (call : ℕ) (key : ℤ) (bytes : ℕ) → Result (ℤ × ℕ)
join_segment os call key bytes = join_found os (os.shmget call key bytes existing)

abbrev pub three {ℓ} : {A : Type ℓ} → A → A → A → ℕ → A
three a b c zero = a
three a b c (suc zero) = b
three a b c (suc (suc i)) = c

-- From `socket` to the creation of the threads; `m` is the number of threads asked for.
unfoldable pub join_game : Os → (n m : ℕ) → (ℕ → ℤ) → Result Joined
join_game os n m key = do
  a ← join_segment os 0 (key 0) n
  b ← join_segment os 1 (key 1) (n * 4)
  c ← join_segment os 2 (key 2) (2 * m * os.sem_size)
  ok (record { n = n; m = m; id = three a.0 b.0 c.0; at = three a.1 b.1 c.1 })

unfoldable pub start_threads : Calls → Joined → Result Joined
unfolding all_true
start_threads c g = do
  must c.threads_ok (codes "calloc")
  must (all_true g.m 0 c.created) (codes "pthread_create")
  ok g

unfoldable pub client_setup : Os → Calls → (m : ℕ) → Result Joined
unfolding join_game start_threads received_or
client_setup os c m = do
  must c.socket_ok (codes "socket")
  must c.connect_ok (codes "connect")
  must c.send_ok (codes "send")
  g ← join_game os (received_or c.received_n 0) m (received_or c.received_keys (λ i. pos 0))
  start_threads c g

unfoldable pub client_cleanup : Calls → Result (Unit {0})
unfolding all_true
client_cleanup c = must (all_true 3 0 c.detached) (codes "shmdt")
