-- ===== src/Guess/Setup/Created.antt =====
-- The loop that looks for a key (`createFirstSharedMemory` and its sisters in
-- Assignment2/server.c).
use cs.Prelude.{
  ℕ, zero, suc, ◌+◌, ◌%◌, ◌<◌, ◌≡◌, refl, true, false, some, arith, Bool-cases, inl, inr,
}
use cs.Prelude.Int.{ℤ, pos, ltb_ℤ}
use cs.Guess.Setup.{ok, out_of_fuel, ◌>>=◌, Os, Flags}
use cs.Guess.Setup.Segments.{Segment, Filled, segment_loop, attach, fill_loop, create_filled}

-- What `shmget` returns for the key of this draw.
abbrev pub answer : Os → (bytes : ℕ) → Flags → ℕ → ℤ
answer os bytes flags draw = os.shmget draw (os.ftok (os.rand draw % 100)) bytes flags

-- A segment that `shmget` has given for its key.
pub record Given (os : Os) (bytes : ℕ) (flags : Flags) (s : Segment) : Type 0 where
  pub draw : ℕ
  pub key_is : s.key ≡ os.ftok (os.rand draw % 100)
  pub id_is : s.id ≡ os.shmget draw s.key bytes flags
  pub valid : ltb_ℤ s.id (pos 0) ≡ false

first-Given :
    (fuel : ℕ) (os : Os) (bytes : ℕ) (flags : Flags) (draw : ℕ)
    → ltb_ℤ (answer os bytes flags draw) (pos 0) ≡ false
    → (s : Segment) × (segment_loop (suc fuel) os bytes flags draw ≡ ok s) × Given os bytes flags s
unfolding segment_loop
first-Given fuel os bytes flags draw good =
    let key = os.ftok (os.rand draw % 100) in
    (
      record { key = key; id = os.shmget draw key bytes flags; draws = draw + 1 },
      rw (good, segment_loop),
      record { draw = draw; key_is = refl; id_is = refl; valid = good },
    )

-- With an answer that is no error among the next draws the loop ends with a segment.
pub segment_loop-Given :
    (fuel : ℕ) (os : Os) (bytes : ℕ) (flags : Flags) (draw k : ℕ)
    → k < fuel
    → ltb_ℤ (answer os bytes flags (draw + k)) (pos 0) ≡ false
    → (s : Segment) × (segment_loop fuel os bytes flags draw ≡ ok s) × Given os bytes flags s
unfolding segment_loop
segment_loop-Given zero os bytes flags draw k h e = absurd (omega arith)
segment_loop-Given (suc fuel) os bytes flags draw zero h e =
    let same : draw + 0 ≡ draw = omega arith in first-Given fuel os bytes flags draw (rw same at e)
segment_loop-Given (suc fuel) os bytes flags draw (suc k) h e =
    elim (Bool-cases (ltb_ℤ (answer os bytes flags draw) (pos 0))) [
      | inr good ↦ first-Given fuel os bytes flags draw good
      | inl bad ↦
          let same : draw + suc k ≡ (draw + 1) + k = omega arith in
          rw (bad, segment_loop)
            (segment_loop-Given fuel os bytes flags (draw + 1) k (omega arith) (rw same at e))
    ]

-- Where every answer is an error the loop does not end.
pub segment_loop-endless :
    (fuel : ℕ) (os : Os) (bytes : ℕ) (flags : Flags) (draw : ℕ)
    → ((d : ℕ) → ltb_ℤ (answer os bytes flags d) (pos 0) ≡ true)
    → segment_loop fuel os bytes flags draw ≡ out_of_fuel
unfolding segment_loop
segment_loop-endless zero os bytes flags draw h = refl
segment_loop-endless (suc fuel) os bytes flags draw h =
    rw (h draw, segment_loop) (segment_loop-endless fuel os bytes flags (draw + 1) h)

pub create_filled-Given :
    (fuel : ℕ) (os : Os) (bytes : ℕ) (flags : Flags) (size v draw k : ℕ)
    → k < fuel
    → ltb_ℤ (answer os bytes flags (draw + k)) (pos 0) ≡ false
    → ((id : ℤ) → ltb_ℤ id (pos 0) ≡ false → (at : ℕ) × (os.shmat id ≡ some at))
    → (f : Filled) × (create_filled fuel os bytes flags size v draw ≡ ok f)
      × Given os bytes flags f.segment
      × ((at : ℕ) × (f.cells ≡ fill_loop size 0 v (os.contents at)))
unfolding create_filled attach
create_filled-Given fuel os bytes flags size v draw k h e attached =
    let (s, f, g) = segment_loop-Given fuel os bytes flags draw k h e in
    let (at, a) = attached s.id g.valid in
    (
      record { segment = s; cells = fill_loop size 0 v (os.contents at) },
      rw (f, ◌>>=◌, a),
      g,
      (at, refl),
    )
