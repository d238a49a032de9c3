-- ===== src/Match/Ipv6.antt =====
-- command.c: `cmd_ipv6_match`, a state machine over the string. `pos` is
-- `str` as an offset into the string and `sp` the offset of the current group (it is unset only in
-- states that do not read it). The start state consumes nothing: it is the function that enters the
-- loop. `colons` is an `int` that starts at -1 behind a leading colon.
use mksh.Prelude.{
  ℕ, ◌+◌, ◌-◌, Bool, true, false, not, ◌&&◌, ◌||◌, Option, none, some, [], ◌∷◌, ltb, leb, ◌==◌,
  if◌then◌else◌,
}
use mksh.Prelude.Int.{ℤ, pos, negsuc, ◌+ℤ◌, ltb_ℤ}
use mksh.Cstr.{Bytes, byte, is_digit}
use mksh.Match.{MatchType, no_match, partly_match, exact_match}
use mksh.Match.Ipv4.{is_nil}

-- IPV6_ADDR_STR: hexadecimal digits, `:`, `.` and `%`.
unfoldable pub is_addr_char : ℕ → Bool
unfolding is_digit
is_addr_char c =
    is_digit c
    || ((leb b'a' c && leb c b'f')
        || ((leb b'A' c && leb c b'F') || (c == b':' || (c == b'.' || c == b'%'))))

-- `strspn (str, set) == strlen (str)`.
unfoldable pub spans : (ℕ → Bool) → Bytes → Bool
spans set [] = true
spans set (c ∷ s) = set c && spans set s

pub data State : Type 0 where
  colon double addr dot slash mask : State

pub record Scan : Type 0 where
  pub state : State
  pub colons : ℤ
  pub nums : ℕ
  pub double_colon : Bool
  pub sp : ℕ

-- The start state on a string that is not empty; `none` is `no_match`.
unfoldable pub start : Bytes → Bytes → Option Scan
start whole s =
    let fresh : Scan = record {
      state = addr;
      colons = pos 0;
      nums = 0;
      double_colon = false;
      sp = 0;
    } in
    if byte whole == b':'
    then (if not (byte s == b':') && not (is_nil s)
        then none
        else some (record fresh { state = colon; colons = negsuc 0 }))
    else some fresh

-- What one round does in each state, at offset `p` with `s` behind the current character.
unfoldable pub addr_step : State → ℕ → Bytes → Scan → Option Scan
addr_step colon p s t =
    let colons = t.colons +ℤ pos 1 in
    if byte s == b':'
    then some (record t { colons = colons; state = double })
    else some (record t { colons = colons; sp = p + 1; state = addr })
addr_step double p s t =
    if t.double_colon
    then none
    else if byte s == b':'
    then none
    else some (record t {
      colons = if not (is_nil s) then t.colons +ℤ pos 1 else t.colons;
      sp = p + 1;
      state = addr;
      double_colon = true;
      nums = t.nums + 1;
    })
addr_step addr p s t =
    let dotted = λ (u : Scan). if byte s == b'.' then record u { state = dot } else u in
    if byte s == b':' || is_nil s
    then (if ltb 3 (p - t.sp)
        then none
        else some (dotted (record t { nums = t.nums + 1; state = colon })))
    else some (dotted t)
addr_step dot p s t = some (record t { state = addr })
addr_step slash p s t = some t
addr_step mask p s t = some t

-- The counters that end the walk behind each round.
unfoldable pub over : ℕ → Scan → Bool
over limit t = ltb limit t.nums || ltb_ℤ (pos 7) t.colons

unfoldable pub addr_walk : Bytes → ℕ → Scan → MatchType
addr_walk [] p t = exact_match
addr_walk (c ∷ s) p t = elim (addr_step t.state p s t) [
  | none ↦ no_match
  | some u ↦ elim (over 8 u) [ true ↦ no_match | false ↦ addr_walk s (p + 1) u ]
]

unfoldable pub cmd_ipv6_match : Option Bytes → MatchType
cmd_ipv6_match none = partly_match
cmd_ipv6_match (some []) = exact_match
cmd_ipv6_match (some (c ∷ s)) =
    if not (spans is_addr_char (c ∷ s))
    then no_match
    else elim (start (c ∷ s) s) [ none ↦ no_match | some t ↦ addr_walk (c ∷ s) 0 t ]
