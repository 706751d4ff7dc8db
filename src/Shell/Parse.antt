-- ===== src/Shell/Parse.antt =====
-- `parseArguments` (Assignment1/mysh.c): a command line into its arguments.
pub mod Words
pub mod Result
use cs.Prelude.{
  ℕ, zero, suc, ◌+◌, ◌-◌, ◌≡◌, Bool, true, false, Option, none, some, List, [], ◌∷◌, if◌then◌else◌,
  length, leb,
}
use cs.Shell.Text.{Text, codes, text_eq, is_delim, is_empty}

-- The macro `SIZE`.
abbrev pub size : ℕ
size = 1024

-- The C library's `strsep` with `DELIMS`: the text before the first delimiter, and what follows
-- it (NULL if there was none).
unfoldable pub strsep : Text → Text × Option Text
strsep [] = ([], none)
strsep (c ∷ s) = if is_delim c then ([], some s) else (let (t, rest) = strsep s in (c ∷ t, rest))

-- What the first loop leaves in `buf_args`: the tokens, and whether NULL stands behind them.
pub record Tokens : Type 0 where
  pub items : List Text
  pub closed : Bool

unfoldable pub add_token : Text → Option Tokens → Option Tokens
add_token t none = none
add_token t (some k) = some (record k { items = t ∷ k.items })

-- The first loop, with `room` cells of `buf_args` from `cp` on. The test compares the pointer of
-- the token with NULL, so that an empty token keeps its cell too; at the end of the array the
-- loop breaks and no NULL is written. The outer `none` means that the fuel ran out.
unfoldable pub split_loop : (fuel room : ℕ) → Option Text → Option Tokens
split_loop zero room wbuf = none
split_loop (suc fuel) room none = some (record { items = []; closed = true })
split_loop (suc fuel) room (some b) =
    let (t, rest) = strsep b in
    let next = add_token t (split_loop fuel (room - 1) rest) in
    if leb room 1 then some (record { items = t ∷ []; closed = false }) else next

-- The results of the function: `args` up to NULL, and the two flags.
pub record Parsed : Type 0 where
  pub args : List Text
  pub time_flag : Bool
  pub ampersand : Bool

-- The second loop, over the tokens up to NULL.
unfoldable pub keep_loop : List Text → Parsed
keep_loop [] = record { args = []; time_flag = false; ampersand = false }
keep_loop (t ∷ rest) =
    let r = keep_loop rest in
    if text_eq t (codes "mytime")
    then record r { time_flag = true }
    else if text_eq t (codes "&")
    then record r { ampersand = true }
    else if is_empty t
    then r
    else record r { args = t ∷ r.args }

-- `none` where the first loop left `buf_args` without NULL, so that the second one would run
-- beyond the array. One round takes a byte at least, or is the last.
unfoldable pub finish_parse : Option Tokens → Option Parsed
unfolding keep_loop
finish_parse none = none
finish_parse (some k) = if k.closed then some (keep_loop k.items) else none

unfoldable pub parse_arguments : Text → Option Parsed
unfolding finish_parse split_loop strsep add_token
parse_arguments buffer = finish_parse (split_loop (length buffer + 2) size (some buffer))
