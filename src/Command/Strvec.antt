-- ===== src/Command/Strvec.antt =====
-- command.c: `cmd_make_strvec` splits a line into words. The program's line is at most as long as an
-- `int` counts, and its two entry points differ in the treatment of quotes only.
pub mod Words
pub mod Join
pub mod Quotes
use mksh.Prelude.{
  ℕ, zero, suc, ◌+◌, ◌≡◌, Bool, ◌||◌, Option, none, some, List, [], ◌∷◌, ◌++◌, map, ◌==◌,
  if◌then◌else◌, length, ◌>>=◌,
}
use mksh.Cstr.{Bytes, is_space, str_chr}
use mksh.Vector.{Vector, vector_init, vector_set}

-- `isspace (*cp) || *cp == '\r' || *cp == '\n'`.
unfoldable pub is_break : ℕ → Bool
unfolding is_space
is_break c = is_space c || (c == b'\r' || c == b'\n')

pub skip_space : Bytes → Bytes
skip_space [] = []
skip_space (c ∷ s) = if is_space c then skip_space s else c ∷ s

pub skip_break : Bytes → Bytes
skip_break [] = []
skip_break (c ∷ s) = if is_break c then skip_break s else c ∷ s

-- The token from `start` to `cp`, and the string at `cp`.
pub token : Bytes → Bytes
token [] = []
token (c ∷ s) = if is_break c then [] else c ∷ token s

pub after_token : Bytes → Bytes
after_token [] = []
after_token (c ∷ s) = if is_break c then c ∷ s else after_token s

-- The `while (1)` loop, on fuel.
pub split_loop : ℕ → Bytes → Vector Bytes → Option (Vector Bytes)
split_loop zero cp strvec = none
split_loop (suc fuel) cp strvec =
    vector_set strvec (some (token cp)) >>= (λ ((w, i) : Vector Bytes × ℕ).
      elim (skip_break (after_token cp)) [ [] ↦ some w | c ∷ rest ↦ split_loop fuel (c ∷ rest) w ])

-- `some none` is the answer NULL.
pub split_line : Bytes → Bytes → Option (Option (Vector Bytes))
split_line string [] = some none
split_line string (c ∷ s) =
    if c == b'!' || c == b'#'
    then some none
    else (split_loop (suc (length string)) (c ∷ s) (vector_init 1) >>= λ (v : Vector Bytes).
        some (some v))

pub cmd_make_strvec_old : Option Bytes → Option (Option (Vector Bytes))
cmd_make_strvec_old none = some none
cmd_make_strvec_old (some string) = split_line string (skip_space string)

abbrev dash : ℕ → ℕ
dash c = if c == b' ' then b'-' else c

-- The first pair of quotes: blanks in place of the quotes, dashes for the blanks between them.
unfoldable pub unquote : Bytes → Bytes
unquote string = elim (str_chr b'"' string) [
  | none ↦ string
  | some (before, rest) ↦ elim (str_chr b'"' rest) [
    | none ↦ string
    | some (quoted, after) ↦ before ++ b' ' ∷ (map dash quoted ++ b' ' ∷ after)
  ]
]

pub cmd_make_strvec : Option Bytes → Option (Option (Vector Bytes))
cmd_make_strvec none = some none
cmd_make_strvec (some string) = let s = unquote string in split_line s (skip_space s)
