-- ===== src/Guess/Setup/Segments.antt =====
-- The secret string and the three segments (`createString`, `createFirstSharedMemory`,
-- `createSecondSharedMemory` and `createThirdSharedMemory` of Assignment2/server.c).
use cs.Prelude.{ℕ, zero, suc, ◌+◌, ◌*◌, ◌%◌, true, false, none, some, get_or}
use cs.Prelude.Int.{ℤ, pos, ltb_ℤ}
use cs.Prelude.Text.{Text, codes}
use cs.Guess.Memory.{update}
use cs.Guess.Setup.{Result, ok, stopped, out_of_fuel, ◌>>=◌, Os, Flags, create, create_new}

abbrev pub alphanum : Text
alphanum = codes "ABCDEFGHIJKLMNOPQRSTUVWXYZabcdefghijklmnopqrstuvwxyz"

-- The loop over the letters, with `rounds` left; `draw` is the number of the next `rand`.
unfoldable pub string_loop : (rounds i draw : ℕ) → (ℕ → ℕ) → (ℕ → ℕ) → ℕ → ℕ
string_loop zero i draw rand s = s
string_loop (suc rounds) i draw rand s =
    string_loop rounds (i + 1) (draw + 1) rand (update s i (get_or alphanum (rand draw % 52) 0))

unfoldable pub create_string : (n draw : ℕ) → (ℕ → ℕ) → (ℕ → ℕ) → ℕ → ℕ
unfolding string_loop
create_string n draw rand s = update (string_loop n 0 draw rand s) n 0

pub record Segment : Type 0 where
  pub key : ℤ
  pub id : ℤ
  pub draws : ℕ

-- A key is drawn until `shmget` returns a segment for it.
unfoldable pub segment_loop : ℕ → Os → (bytes : ℕ) → Flags → (draw : ℕ) → Result Segment
segment_loop zero os bytes flags draw = out_of_fuel
segment_loop (suc fuel) os bytes flags draw =
    let key = os.ftok (os.rand draw % 100) in
    let id = os.shmget draw key bytes flags in
    elim (ltb_ℤ id (pos 0)) [
      | true ↦ segment_loop fuel os bytes flags (draw + 1)
      | false ↦ ok (record { key = key; id = id; draws = draw + 1 })
    ]

unfoldable pub attach : Os → ℤ → Result ℕ
attach os id = elim (os.shmat id) [ none ↦ stopped 1 (codes "shmat") | some at ↦ ok at ]

-- The loops that initialise a segment.
unfoldable pub fill_loop : (rounds i v : ℕ) → (ℕ → ℕ) → ℕ → ℕ
fill_loop zero i v s = s
fill_loop (suc rounds) i v s = fill_loop rounds (i + 1) v (update s i v)

-- A segment, and what it holds after the loop.
pub record Filled : Type 0 where
  pub segment : Segment
  pub cells : ℕ → ℕ

unfoldable pub create_filled : ℕ → Os → (bytes : ℕ) → Flags → (cells v draw : ℕ) → Result Filled
unfolding segment_loop attach fill_loop
create_filled fuel os bytes flags cells v draw = do
  seg ← segment_loop fuel os bytes flags draw
  at ← attach os seg.id
  ok (record { segment = seg; cells = fill_loop cells 0 v (os.contents at) })

unfoldable pub create_first : ℕ → Os → (n draw : ℕ) → Result Filled
unfolding create_filled
create_first fuel os n draw = create_filled fuel os n create n b'0' draw

unfoldable pub create_second : ℕ → Os → (n draw : ℕ) → Result Filled
unfolding create_filled
create_second fuel os n draw = create_filled fuel os (n * 4) create n 0 draw

unfoldable pub create_third : ℕ → Os → (m draw : ℕ) → Result Filled
unfolding create_filled
create_third fuel os m draw = create_filled fuel os (2 * m * os.sem_size) create_new (2 * m) 0 draw
