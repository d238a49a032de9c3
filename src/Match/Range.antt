-- ===== src/Match/Range.antt =====
-- command.c: `cmd_range_match`, a word against a specification such as `<1-255>`.
pub mod Decimal
use mksh.Prelude.{
  ℕ, ◌+◌, ◌-◌, ◌*◌, ◌%◌, ◌^◌, Bool, true, false, not, ◌&&◌, ◌||◌, Option, none, some, List, [], ◌∷◌,
  ltb, leb, ◌==◌, if◌then◌else◌, length,
}
use mksh.Cstr.{Bytes, byte, next, is_space, is_digit, str_chr, digits, after_digits, value}
use mksh.Match.Ipv4.{is_nil}

unfoldable pub skip_space : Bytes → Bytes
unfolding is_space
skip_space [] = []
skip_space (c ∷ s) = if is_space c then skip_space s else c ∷ s

abbrev pub ulong_mod : ℕ
ulong_mod = 2 ^ 64

-- A value as an `unsigned long`: the largest one where it does not fit, and its negation modulo
-- 2 ^ 64 behind a minus sign.
unfoldable pub to_ulong : Bool → ℕ → ℕ
to_ulong negative n =
    if leb ulong_mod n then ulong_mod - 1 else if negative then (ulong_mod - n) % ulong_mod else n

-- `strtoul (s, &endptr, 10)` behind the sign: the value and `endptr`, which is the start of the
-- whole string where there are no digits.
unfoldable pub number : Bytes → Bool → Bytes → ℕ × Bytes
number whole negative s =
    if is_nil (digits s) then (0, whole) else (to_ulong negative (value (digits s)), after_digits s)

unfoldable pub strtoul : Bytes → ℕ × Bytes
strtoul whole =
    let s = skip_space whole in
    if byte s == b'-'
    then number whole true (next s)
    else if byte s == b'+'
    then number whole false (next s)
    else number whole false s

abbrev pub decimal_strlen_max : ℕ
decimal_strlen_max = 10

-- One bound: the text up to the separator, which must fit the buffer and be a number in whole. What
-- is found is the number and the text behind the separator.
unfoldable pub bound : ℕ → Bytes → Option (ℕ × Bytes)
bound separator range = elim (str_chr separator range) [
  | none ↦ none
  | some (buf, rest) ↦
      if ltb decimal_strlen_max (length buf)
      then none
      else if not (is_nil (strtoul buf).1)
      then none
      else some ((strtoul buf).0, rest)
]

unfoldable pub in_range : ℕ → Bytes → Bool
in_range val range = elim (bound b'-' range) [
  | none ↦ false
  | some (min, rest) ↦ elim (bound b'>' rest) [
    | none ↦ false
    | some (max, _) ↦ not (ltb val min || ltb max val)
  ]
]

-- `range` begins with `<`.
unfoldable pub cmd_range_match : Bytes → Option Bytes → Bool
cmd_range_match range none = true
cmd_range_match range (some str) =
    if not (is_nil (strtoul str).1) then false else in_range (strtoul str).0 (next range)
