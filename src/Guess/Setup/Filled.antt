-- ===== src/Guess/Setup/Filled.antt =====
-- What the loops over the string and over a segment leave behind (Assignment2/server.c).
use cs.Prelude.{
  ℕ, zero, suc, ◌+◌, ◌%◌, ◌<◌, ◌≡◌, refl, ap, ◌∙◌, Bool, true, false, ◌&&◌, ◌||◌, leb, ltb, get_or,
  length, [], ◌∷◌, arith, if◌then◌else◌, ◌==◌,
}
use cs.Prelude.Text.{Text}
use cs.Guess.Memory.{update}
use cs.Guess.Setup.Segments.{alphanum, string_loop, create_string, fill_loop}

-- The cells from `i` on have the value, and all others are as before.
pub fill_loop-at :
    (rounds i v : ℕ) (s : ℕ → ℕ) (j : ℕ)
    → fill_loop rounds i v s j ≡ (if leb i j && ltb j (i + rounds) then v else s j)
unfolding fill_loop
fill_loop-at zero i v s j = ground arith
fill_loop-at (suc rounds) i v s j = ground (arith, fill_loop-at rounds (i + 1) v (update s i v) j)

pub fill_loop-below : (rounds v : ℕ) (s : ℕ → ℕ) (j : ℕ) → j < rounds → fill_loop rounds 0 v s j ≡ v
fill_loop-below rounds v s j h = fill_loop-at rounds 0 v s j ∙ ground arith

-- A letter of `alphanum`, by its number.
abbrev letter : ℕ → ℕ
letter k = get_or alphanum (k % 52) 0

string_loop-before :
    (rounds i draw : ℕ) (rand s : ℕ → ℕ) (j : ℕ) → j < i → string_loop rounds i draw rand s j ≡ s j
unfolding string_loop
string_loop-before zero i draw rand s j h = refl
string_loop-before (suc rounds) i draw rand s j h =
    string_loop-before rounds (i + 1) (draw + 1) rand (update s i (letter (rand draw))) j
      (omega arith)
    ∙ ground arith

string_loop-at :
    (rounds i draw : ℕ) (rand s : ℕ → ℕ) (k : ℕ)
    → k < rounds
    → string_loop rounds i draw rand s (i + k) ≡ letter (rand (draw + k))
unfolding string_loop
string_loop-at zero i draw rand s k h = absurd (omega arith)
string_loop-at (suc rounds) i draw rand s zero h =
    let at : i + 0 ≡ i = omega arith in
    let first : draw + 0 ≡ draw = omega arith in
    rw (at, first)
      (string_loop-before rounds (i + 1) (draw + 1) rand (update s i (letter (rand draw))) i
          (omega arith)
        ∙ ground arith)
string_loop-at (suc rounds) i draw rand s (suc k) h =
    let at : i + suc k ≡ (i + 1) + k = omega arith in
    let next : draw + suc k ≡ (draw + 1) + k = omega arith in
    rw (at, next)
      (string_loop-at rounds (i + 1) (draw + 1) rand (update s i (letter (rand draw))) k
        (omega arith))

-- The test of an upper-case or lower-case letter.
abbrev pub is_letter : ℕ → Bool
is_letter c = leb b'A' c && leb c b'Z' || leb b'a' c && leb c b'z'

all_letters : Text → Bool
all_letters [] = true
all_letters (c ∷ rest) = is_letter c && all_letters rest

get_or-letter :
    (t : Text) (k : ℕ) → all_letters t ≡ true → k < length t → is_letter (get_or t k 0) ≡ true
unfolding all_letters
get_or-letter [] k ok h = absurd (omega arith)
get_or-letter (c ∷ rest) zero ok h = ground arith
get_or-letter (c ∷ rest) (suc k) ok h = get_or-letter rest k (ground arith) (omega arith)

alphanum-letters : all_letters alphanum ≡ true
unfolding all_letters
alphanum-letters = refl

letter-is_letter : (k : ℕ) → is_letter (letter k) ≡ true
letter-is_letter k = get_or-letter alphanum (k % 52) alphanum-letters (omega arith)

-- The string has a letter of the alphabet at each place before its end, and there NUL.
pub create_string-letter :
    (n draw : ℕ) (rand s : ℕ → ℕ) (j : ℕ) → j < n → is_letter (create_string n draw rand s j) ≡ true
unfolding create_string
create_string-letter n draw rand s j h =
    let apart : (n == j) ≡ false = ground arith in
    let at : string_loop n 0 draw rand s j ≡ letter (rand (draw + j)) =
      ap (string_loop n 0 draw rand s) (omega arith) ∙ string_loop-at n 0 draw rand s j h in
    rw (apart, at) (letter-is_letter (rand (draw + j)))

pub create_string-end : (n draw : ℕ) (rand s : ℕ → ℕ) → create_string n draw rand s n ≡ 0
unfolding create_string
create_string-end n draw rand s = ground arith
