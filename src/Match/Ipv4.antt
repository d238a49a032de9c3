-- ===== src/Match/Ipv4.antt =====
-- command.c: `cmd_ipv4_match` and `cmd_ipv4_prefix_match`. The two nested loops of each walk the
-- string once. They are one recursion here: `seg` is the text from `sp` to `str`.
pub mod Quad
pub mod Slash
use mksh.Prelude.{
  ℕ, ◌+◌, ◌*◌, ◌-◌, ◌%◌, ◌^◌, Bool, true, false, not, ◌&&◌, ◌||◌, Option, none, some, List, [], ◌∷◌,
  ◌++◌, ltb, leb, ◌==◌, if◌then◌else◌, length,
}
use mksh.Cstr.{Bytes, byte, is_digit, value}
use mksh.Match.{MatchType, no_match, partly_match, exact_match}

abbrev pub is_nil : Bytes → Bool
is_nil [] = true
is_nil (c ∷ s) = false

-- `str - sp > 3`, and `atoi (buf) > 255` on the at most three digits that were copied.
unfoldable pub bad_octet : Bytes → Bool
bad_octet seg = ltb 3 (length seg) || ltb 255 (value seg)

-- The tests at a dot: the answer with which the function returns, if it does.
unfoldable pub at_dot : Bytes → ℕ → Option MatchType
at_dot s dots =
    if leb 3 dots
    then some no_match
    else if byte s == b'.'
    then some no_match
    else if is_nil s
    then some partly_match
    else none

unfoldable pub ipv4_walk : Bytes → Bytes → ℕ → ℕ → MatchType
unfolding bad_octet at_dot is_digit
ipv4_walk [] seg dots nums =
    if bad_octet seg then no_match else if ltb (nums + 1) 4 then partly_match else exact_match
ipv4_walk (c ∷ s) seg dots nums = elim (c == b'.') [
  | true ↦ elim (at_dot s dots) [
    | some m ↦ m
    | none ↦ elim (bad_octet seg) [ true ↦ no_match | false ↦ ipv4_walk s [] (dots + 1) (nums + 1) ]
  ]
  | false ↦ elim (is_digit c) [ false ↦ no_match | true ↦ ipv4_walk s (seg ++ c ∷ []) dots nums ]
]

unfoldable pub cmd_ipv4_match : Option Bytes → MatchType
unfolding ipv4_walk
cmd_ipv4_match none = partly_match
cmd_ipv4_match (some str) = ipv4_walk str [] 0 0

-- `atoi` of the C library on a string of digits: `strtol`, which stops at LONG_MAX, cut to an `int`.
-- The answer is `atoi (s) > bound`.
unfoldable pub atoi_gt : Bytes → ℕ → Bool
atoi_gt s bound =
    let long = if leb (value s) (2 ^ 63 - 1) then value s else 2 ^ 63 - 1 in
    let int = long % 2 ^ 32 in ltb int (2 ^ 31) && ltb bound int

all_digits : Bytes → Bool
unfolding is_digit
all_digits [] = true
all_digits (c ∷ s) = is_digit c && all_digits s

-- The text behind the slash.
unfoldable pub prefix_mask : Bytes → MatchType
unfolding all_digits atoi_gt
prefix_mask s =
    if not (all_digits s) then no_match else if atoi_gt s 32 then no_match else exact_match

unfoldable pub prefix_at_dot : Bytes → ℕ → Option MatchType
prefix_at_dot s dots =
    if dots == 3
    then some no_match
    else if byte s == b'.' || byte s == b'/'
    then some no_match
    else if is_nil s
    then some partly_match
    else none

-- A slash ends an octet too, and is passed over when fewer than three dots have been seen.
unfoldable pub prefix_walk : Bytes → Bytes → ℕ → MatchType
unfolding bad_octet prefix_at_dot prefix_mask is_digit
prefix_walk [] seg dots = if bad_octet seg then no_match else partly_match
prefix_walk (c ∷ s) seg dots = elim (c == b'/') [
  | true ↦ elim (bad_octet seg) [
    | true ↦ no_match
    | false ↦ elim (dots == 3) [
      | true ↦ if is_nil s then partly_match else prefix_mask s
      | false ↦ prefix_walk s [] dots
    ]
  ]
  | false ↦ elim (c == b'.') [
    | true ↦ elim (prefix_at_dot s dots) [
      | some m ↦ m
      | none ↦ elim (bad_octet seg) [ true ↦ no_match | false ↦ prefix_walk s [] (dots + 1) ]
    ]
    | false ↦ elim (is_digit c) [ false ↦ no_match | true ↦ prefix_walk s (seg ++ c ∷ []) dots ]
  ]
]

unfoldable pub cmd_ipv4_prefix_match : Option Bytes → MatchType
unfolding prefix_walk
cmd_ipv4_prefix_match none = partly_match
cmd_ipv4_prefix_match (some str) = prefix_walk str [] 0
