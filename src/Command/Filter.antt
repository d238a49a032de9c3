-- ===== src/Command/Filter.antt =====
-- command.c: `cmd_filter_by_completion`, `cmd_filter_by_string` and `is_cmd_ambiguous`. Each goes
-- through the copied command vector and clears the slots of the commands that the word rules out.
pub mod Keeps
pub mod Ambiguous
pub mod Vararg
pub mod Sift
use mksh.Prelude.{
  ℕ, zero, suc, ◌+◌, Bool, true, false, not, ◌&&◌, ◌||◌, Option, none, some, List, [], ◌∷◌,
  if◌then◌else◌, get_elem?, is_some,
}
use mksh.Cstr.{Bytes, str_eq, is_prefix}
use mksh.Match.{
  MatchType, no_match, extend_match, ipv4_prefix_match, ipv4_match, ipv6_prefix_match, ipv6_match,
  range_match, vararg_match, partly_match, exact_match, weaker, matches,
}
use mksh.Match.Ipv4.{cmd_ipv4_match, cmd_ipv4_prefix_match}
use mksh.Match.Ipv6.{cmd_ipv6_match}
use mksh.Match.Ipv6Prefix.{cmd_ipv6_prefix_match}
use mksh.Match.Range.{cmd_range_match}
use mksh.Command.Element.{
  Desc, Element, cmd_option, cmd_variable, cmd_ipv4, cmd_ipv6, Form, vararg, range, ipv6,
  ipv6_prefix, ipv4, ipv4_prefix, variable, literal, form,
}

abbrev pub Slots : Type 0
Slots = List (Option Element)

-- How a typed word meets a word of a specification: the match type if it does.
abbrev pub Test : Type 0
Test = Bytes → Bytes → Option MatchType

abbrev when : Bool → MatchType → Option MatchType
when b m = if b then some m else none

unfoldable pub is_exact : MatchType → Bool
is_exact exact_match = true
is_exact _ = false

unfoldable pub completes : Form → Test
completes vararg command str = some vararg_match
completes range command str = when (cmd_range_match str (some command)) range_match
completes ipv6 command str = when (matches (cmd_ipv6_match (some command))) ipv6_match
completes ipv6_prefix command str =
    when (matches (cmd_ipv6_prefix_match (some command))) ipv6_prefix_match
completes ipv4 command str = when (matches (cmd_ipv4_match (some command))) ipv4_match
completes ipv4_prefix command str =
    when (matches (cmd_ipv4_prefix_match (some command))) ipv4_prefix_match
completes variable command str = some extend_match
completes literal command str =
    if is_prefix command str
    then some (if str_eq command str then exact_match else partly_match)
    else none

unfoldable pub equals : Form → Test
equals vararg command str = some vararg_match
equals range command str = when (cmd_range_match str (some command)) range_match
equals ipv6 command str = when (is_exact (cmd_ipv6_match (some command))) ipv6_match
equals ipv6_prefix command str =
    when (is_exact (cmd_ipv6_prefix_match (some command))) ipv6_prefix_match
equals ipv4 command str = when (is_exact (cmd_ipv4_match (some command))) ipv4_match
equals ipv4_prefix command str =
    when (is_exact (cmd_ipv4_prefix_match (some command))) ipv4_prefix_match
equals variable command str = some extend_match
equals literal command str = when (str_eq command str) exact_match

unfoldable pub by_completion : Test
by_completion command str = completes (form str) command str

unfoldable pub by_string : Test
by_string command str = equals (form str) command str

-- `if (match_type < m) match_type = m`; `exact_match` is assigned, and is the strongest.
unfoldable pub raise : MatchType → MatchType → MatchType
raise old new = if weaker old new then new else old

-- The loop over the alternatives of one command at the word's position.
unfoldable pub filter_descs : Test → Bytes → List Desc → MatchType → Bool → MatchType × Bool
filter_descs test command [] match_type matched = (match_type, matched)
filter_descs test command (desc ∷ descvec) match_type matched = elim (test command desc.cmd) [
  | none ↦ filter_descs test command descvec match_type matched
  | some m ↦ filter_descs test command descvec (raise match_type m) true
]

-- One slot: what is left in it, and the match type so far.
unfoldable pub filter_slot :
    Test → Bytes → ℕ → Option Element → MatchType → Option Element × MatchType
filter_slot test command index none match_type = (none, match_type)
filter_slot test command index (some e) match_type = elim (get_elem? e.strvec index) [
  | none ↦ (none, match_type)
  | some descvec ↦
      let (m, matched) = filter_descs test command descvec match_type false in
      (if matched then some e else none, m)
]

pub filter_slots : Test → Bytes → ℕ → Slots → MatchType → Slots × MatchType
filter_slots test command index [] match_type = ([], match_type)
filter_slots test command index (slot ∷ v) match_type =
    let (slot', m) = filter_slot test command index slot match_type in
    let (v', m') = filter_slots test command index v m in (slot' ∷ v', m')

unfoldable pub cmd_filter_by_completion : Bytes → Slots → ℕ → Slots × MatchType
cmd_filter_by_completion command v index = filter_slots by_completion command index v no_match

unfoldable pub cmd_filter_by_string : Bytes → Slots → ℕ → Slots × MatchType
cmd_filter_by_string command v index = filter_slots by_string command index v no_match

-- What `is_cmd_ambiguous` answers: 0, 1 or 2; or it has read a slot outside a command's vector.
pub data Ambiguity : Type 0 where
  clear ambiguous incomplete fault : Ambiguity

-- The loop over the alternatives: it returns, or goes on with `matched` and whether one matched.
pub data Inspection : Type 0 where
  returns : Ambiguity → Inspection
  continues : Option Bytes → Bool → Inspection

abbrev pub fixed_word : Bytes → Bool
fixed_word str = not (cmd_option str || cmd_variable str)

-- `matched && strcmp (matched, str) != 0`.
unfoldable pub differs : Option Bytes → Bytes → Bool
differs none str = false
differs (some m) str = not (str_eq m str)

unfoldable pub same_word : Bool → Bytes → Option Bytes → Bool → Inspection
same_word here str matched found =
    if here
    then (if differs matched str then returns ambiguous else continues (some str) true)
    else continues matched found

unfoldable pub whole_prefix : MatchType → Option Bytes → Bool → Inspection
whole_prefix no_match matched found = continues matched found
whole_prefix partly_match matched found = returns incomplete
whole_prefix _ matched found = continues matched true

unfoldable pub inspect : MatchType → Bytes → Bytes → Option Bytes → Bool → Inspection
inspect exact_match command str matched found =
    continues matched (found || (fixed_word str && str_eq command str))
inspect partly_match command str matched found =
    same_word (fixed_word str && is_prefix command str) str matched found
inspect range_match command str matched found =
    same_word (cmd_range_match str (some command)) str matched found
inspect ipv6_match command str matched found = continues matched (found || cmd_ipv6 str)
inspect ipv6_prefix_match command str matched found =
    whole_prefix (cmd_ipv6_prefix_match (some command)) matched found
inspect ipv4_match command str matched found = continues matched (found || cmd_ipv4 str)
inspect ipv4_prefix_match command str matched found =
    whole_prefix (cmd_ipv4_prefix_match (some command)) matched found
inspect extend_match command str matched found =
    continues matched (found || (cmd_option str || cmd_variable str))
inspect no_match command str matched found = continues matched found
inspect vararg_match command str matched found = continues matched found

unfoldable pub and_then : Inspection → (Option Bytes → Bool → Inspection) → Inspection
and_then (returns a) rest = returns a
and_then (continues m found) rest = rest m found

unfoldable pub inspect_descs : MatchType → Bytes → List Desc → Option Bytes → Bool → Inspection
unfolding and_then
inspect_descs type command [] matched found = continues matched found
inspect_descs type command (desc ∷ descvec) matched found =
    and_then (inspect type command desc.cmd matched found)
      (λ m f. inspect_descs type command descvec m f)

unfoldable pub inspect_slot : MatchType → Bytes → ℕ → Option Element → Option Bytes → Inspection
inspect_slot type command index none matched = continues matched true
inspect_slot type command index (some e) matched = elim (get_elem? e.strvec index) [
  | none ↦ returns fault
  | some descvec ↦ inspect_descs type command descvec matched false
]

-- Behind the inspection of a slot: a return leaves this slot and those behind it as they are.
unfoldable pub resume :
    Option Element → Slots → Inspection → (Option Bytes → Ambiguity × Slots) → Ambiguity × Slots
resume slot v (returns a) rest = (a, slot ∷ v)
resume slot v (continues m found) rest =
    let (a, v') = rest m in (a, (if found then slot else none) ∷ v')

unfoldable pub ambiguous_slots : Bytes → Slots → ℕ → MatchType → Option Bytes → Ambiguity × Slots
unfolding resume
ambiguous_slots command [] index type matched = (clear, [])
ambiguous_slots command (slot ∷ v) index type matched =
    resume slot v (inspect_slot type command index slot matched)
      (λ m. ambiguous_slots command v index type m)

unfoldable pub is_cmd_ambiguous : Bytes → Slots → ℕ → MatchType → Ambiguity × Slots
is_cmd_ambiguous command v index type = ambiguous_slots command v index type none
