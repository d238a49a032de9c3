-- ===== src/Match/Ipv6Prefix.antt =====
-- command.c: `cmd_ipv6_prefix_match`. As in Match/Ipv6.antt, `p` is `str` as an offset and the start
-- state is the function that enters the loop; the loop ends in the mask state too.
use mksh.Prelude.{
  ℕ, ◌+◌, ◌-◌, ◌%◌, ◌^◌, Bool, true, false, not, ◌||◌, Option, none, some, [], ◌∷◌, ltb, leb, ◌==◌,
  if◌then◌else◌, take, drop,
}
use mksh.Prelude.Int.{pos, ◌+ℤ◌}
use mksh.Cstr.{Bytes, byte, digits, after_digits, value}
use mksh.Match.{MatchType, no_match, partly_match, exact_match}
use mksh.Match.Ipv4.{is_nil}
use mksh.Match.Ipv6.{
  State, colon, double, addr, dot, slash, mask, Scan, is_addr_char, spans, start, over,
}

-- IPV6_PREFIX_STR.
unfoldable pub is_prefix_char : ℕ → Bool
unfolding is_addr_char
is_prefix_char c = is_addr_char c || c == b'/'

has_slash : Bytes → Bool
has_slash [] = false
has_slash (c ∷ s) = c == b'/' || has_slash s

-- The group `[sp, str]` of the string, and the test of each of its characters.
unfoldable pub group_has_slash : Bytes → ℕ → ℕ → Bool
unfolding has_slash
group_has_slash whole sp p = has_slash (take (p + 1 - sp) (drop sp whole))

unfoldable pub after_group : ℕ → Scan → Scan
after_group c t =
    if c == b':'
    then record t { state = colon }
    else if c == b'.'
    then record t { state = dot }
    else if c == b'/'
    then record t { state = slash }
    else t

pub data Round : Type 0 where
  stop : MatchType → Round
  go : Scan → Round

unfoldable pub prefix_step : Bytes → State → ℕ → Bytes → Scan → Round
unfolding group_has_slash after_group
prefix_step whole colon p s t =
    let colons = t.colons +ℤ pos 1 in
    if byte s == b'/'
    then stop no_match
    else if byte s == b':'
    then go (record t { colons = colons; state = double })
    else go (record t { colons = colons; sp = p + 1; state = addr })
prefix_step whole double p s t =
    if t.double_colon
    then stop no_match
    else if byte s == b':'
    then stop no_match
    else go (record t {
      colons = if is_nil s || byte s == b'/' then t.colons else t.colons +ℤ pos 1;
      sp = p + 1;
      state = if byte s == b'/' then slash else addr;
      double_colon = true;
      nums = t.nums + 1;
    })
prefix_step whole addr p s t =
    if byte s == b':' || (byte s == b'.' || (is_nil s || byte s == b'/'))
    then (if ltb 3 (p - t.sp)
        then stop no_match
        else if group_has_slash whole t.sp p
        then stop no_match
        else go (after_group (byte s) (record t { sp = p + 1; nums = t.nums + 1 })))
    else go t
prefix_step whole dot p s t = go (record t { state = addr })
prefix_step whole slash p s t =
    if is_nil s then stop partly_match else go (record t { state = mask })
prefix_step whole mask p s t = go t

-- Behind the loop in the mask state: `strtol` reads digits only, since the string has no blank and
-- no sign; the value is cut to an `int`, and what is negative or above 128 fails.
unfoldable pub mask_match : Bytes → MatchType
mask_match s =
    let long = if leb (value (digits s)) (2 ^ 63 - 1) then value (digits s) else 2 ^ 63 - 1 in
    if not (is_nil (after_digits s))
    then no_match
    else if ltb 128 (long % 2 ^ 32)
    then no_match
    else exact_match

unfoldable pub is_mask : State → Bool
is_mask mask = true
is_mask _ = false

unfoldable pub prefix_walk : Bytes → Bytes → ℕ → Scan → MatchType
unfolding prefix_step mask_match is_mask
prefix_walk whole [] p t = if is_mask t.state then mask_match [] else partly_match
prefix_walk whole (c ∷ s) p t = elim (is_mask t.state) [
  | true ↦ mask_match (c ∷ s)
  | false ↦ elim (prefix_step whole t.state p s t) [
    | stop m ↦ m
    | go u ↦ elim (over 11 u) [ true ↦ no_match | false ↦ prefix_walk whole s (p + 1) u ]
  ]
]

unfoldable pub cmd_ipv6_prefix_match : Option Bytes → MatchType
unfolding prefix_walk
cmd_ipv6_prefix_match none = partly_match
cmd_ipv6_prefix_match (some []) = partly_match
cmd_ipv6_prefix_match (some (c ∷ s)) =
    if not (spans is_prefix_char (c ∷ s))
    then no_match
    else elim (start (c ∷ s) s) [ none ↦ no_match | some t ↦ prefix_walk (c ∷ s) (c ∷ s) 0 t ]
