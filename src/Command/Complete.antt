-- ===== src/Command/Complete.antt =====
-- command.c: `cmd_complete_command` (the tab key) and the helpers of `cmd_describe_command`. The line is
-- the words in front of the current one, and the current word, which is NULL behind a blank.
pub mod Lcd
pub mod Answers
use mksh.Prelude.{
  ℕ, zero, suc, ◌+◌, Bool, true, false, not, ◌&&◌, ◌||◌, Option, none, some, List, [], ◌∷◌, ◌++◌,
  ltb, leb, ◌==◌, if◌then◌else◌, get_elem?, length, take, is_some,
}
use mksh.Cstr.{Bytes, str_eq, is_prefix}
use mksh.Match.{MatchType, matches}
use mksh.Match.Ipv4.{cmd_ipv4_match, cmd_ipv4_prefix_match}
use mksh.Match.Ipv6.{cmd_ipv6_match}
use mksh.Match.Ipv6Prefix.{cmd_ipv6_prefix_match}
use mksh.Match.Range.{cmd_range_match}
use mksh.Command.Element.{
  Desc, Element, codes, cmd_option, cmd_variable, cmd_vararg, cmd_ipv4, cmd_ipv4_prefix, Form,
  vararg, range, ipv6, ipv6_prefix, ipv4, ipv4_prefix, variable, literal, form,
}
use mksh.Command.Filter.{
  Slots, Ambiguity, clear, ambiguous, incomplete, fault, cmd_filter_by_completion, is_cmd_ambiguous,
}
use mksh.Command.Execute.{is_vararg}

-- `cmd_entry_function`: the word of the specification if it completes what was typed. What it takes
-- for a variable word it never offers; words for IPv6 addresses begin with a capital.
unfoldable pub offered : Bytes → Bool
offered dst = not (
    cmd_option dst
    || (cmd_variable dst || (cmd_vararg dst || (cmd_ipv4 dst || cmd_ipv4_prefix dst))))

unfoldable pub cmd_entry_function : Option Bytes → Bytes → Option Bytes
cmd_entry_function src dst =
    if not (offered dst)
    then none
    else elim src [ none ↦ some dst | some s ↦ if is_prefix s dst then some dst else none ]

abbrev shown : Bool → Bytes → Option Bytes
shown b dst = if b then some dst else none

unfoldable pub describes : Form → Option Bytes → Bytes → Option Bytes
describes vararg src dst = some dst
describes range src dst = shown (cmd_range_match dst src) dst
describes ipv6 src dst = shown (matches (cmd_ipv6_match src)) dst
describes ipv6_prefix src dst = shown (matches (cmd_ipv6_prefix_match src)) dst
describes ipv4 src dst = shown (matches (cmd_ipv4_match src)) dst
describes ipv4_prefix src dst = shown (matches (cmd_ipv4_prefix_match src)) dst
describes variable src dst = some dst
describes literal src dst = elim src [
  | none ↦ some dst
  | some s ↦ if is_prefix s dst then some dst else none
]

unfoldable pub cmd_entry_function_desc : Option Bytes → Bytes → Option Bytes
cmd_entry_function_desc src dst = describes (form dst) src dst

-- No slot holds the string.
unfoldable pub cmd_unique_string : List Bytes → Bytes → Bool
cmd_unique_string [] str = true
cmd_unique_string (m ∷ v) str = if str_eq m str then false else cmd_unique_string v str

-- Some slot holds the string.
unfoldable pub desc_unique_string : List Desc → Bytes → Bool
desc_unique_string [] str = false
desc_unique_string (desc ∷ v) str = if str_eq desc.cmd str then true else desc_unique_string v str

-- The index of the first character in which two strings differ.
unfoldable pub common : Bytes → Bytes → ℕ
common [] t = 0
common (c ∷ s) [] = 0
common (c ∷ s) (d ∷ t) = if c == d then suc (common s t) else 0

-- The loop over neighbours; `none` is the initial -1.
unfoldable pub lcd_loop : Bytes → List Bytes → Option ℕ → Option ℕ
unfolding common
lcd_loop s [] lcd = lcd
lcd_loop s (t ∷ rest) none = lcd_loop t rest (some (common s t))
lcd_loop s (t ∷ rest) (some l) =
    lcd_loop t rest (some (if ltb (common s t) l then common s t else l))

unfoldable pub cmd_lcd : List Bytes → ℕ
unfolding lcd_loop
cmd_lcd [] = 0
cmd_lcd (s ∷ []) = 0
cmd_lcd (s ∷ t ∷ rest) = elim (lcd_loop s (t ∷ rest) none) [ none ↦ 0 | some l ↦ l ]

pub data Status : Type 0 where
  success err_ambiguous err_no_match err_nothing_todo : Status
  complete_full_match complete_match complete_list_match : Status

-- The loop over the words in front of the current one. `incomplete` does not stop a completion.
pub data Narrowed : Type 0 where
  stopped : Status → Narrowed
  crashed : Narrowed
  narrowed : Slots → Narrowed

unfoldable pub narrow_check : Ambiguity → Slots → (Slots → Narrowed) → Narrowed
narrow_check clear v rest = rest v
narrow_check ambiguous v rest = stopped err_ambiguous
narrow_check incomplete v rest = rest v
narrow_check fault v rest = crashed

unfoldable pub narrow : List Bytes → ℕ → Slots → Narrowed
unfolding narrow_check
narrow [] index v = narrowed v
narrow (command ∷ vline) index v =
    let (w, m) = cmd_filter_by_completion command v index in
    let (a, u) = is_cmd_ambiguous command w index m in
    narrow_check a u (λ x. narrow vline (index + 1) x)

-- The completions of one command's alternatives, each once.
unfoldable pub add_match : List Bytes → Option Bytes → List Bytes
add_match matchvec none = matchvec
add_match matchvec (some string) =
    if cmd_unique_string matchvec string then matchvec ++ string ∷ [] else matchvec

unfoldable pub collect_descs : Option Bytes → List Desc → List Bytes → List Bytes
unfolding add_match
collect_descs current [] matchvec = matchvec
collect_descs current (desc ∷ descvec) matchvec =
    collect_descs current descvec (add_match matchvec (cmd_entry_function current desc.cmd))

unfoldable pub collect_slot : Option Bytes → ℕ → Option Element → List Bytes → List Bytes
unfolding collect_descs
collect_slot current index none matchvec = matchvec
collect_slot current index (some e) matchvec = elim (get_elem? e.strvec index) [
  | none ↦ matchvec
  | some descvec ↦ collect_descs current descvec matchvec
]

unfoldable pub collect : Option Bytes → ℕ → Slots → List Bytes → List Bytes
unfolding collect_slot
collect current index [] matchvec = matchvec
collect current index (slot ∷ v) matchvec =
    collect current index v (collect_slot current index slot matchvec)

-- What `cmd_complete_command` gives: the status, and the strings in front of the final NULL.
pub record Completion : Type 0 where
  pub status : Status
  pub strings : List Bytes

-- The first `n` characters of the first completion.
unfoldable pub first_chars : ℕ → List Bytes → List Bytes
first_chars n [] = []
first_chars n (m ∷ matchvec) = take n m ∷ []

unfoldable pub list_answer : Option Bytes → List Bytes → Completion
unfolding first_chars
list_answer none matchvec = record { status = complete_list_match; strings = matchvec }
list_answer (some typed) matchvec =
    if ltb (length typed) (cmd_lcd matchvec)
    then record { status = complete_match; strings = first_chars (cmd_lcd matchvec) matchvec }
    else record { status = complete_list_match; strings = matchvec }

unfoldable pub answer : Option Bytes → List Bytes → Completion
unfolding list_answer
answer current [] = record {
  status = if is_some current then err_no_match else err_nothing_todo;
  strings = [];
}
answer current (m ∷ []) = record { status = complete_full_match; strings = m ∷ [] }
answer current (m ∷ k ∷ r) = list_answer current (m ∷ k ∷ r)

-- `none` is a read outside a vector.
unfoldable pub complete_narrowed : Option Bytes → ℕ → Narrowed → Option Completion
unfolding answer
complete_narrowed current index (stopped s) = some (record { status = s; strings = [] })
complete_narrowed current index crashed = none
complete_narrowed current index (narrowed v) = some (answer current (collect current index v []))

pub cmd_complete_command : List Bytes → Option Bytes → Slots → Option Completion
unfolding complete_narrowed
cmd_complete_command words current cmd_vector =
    complete_narrowed current (length words) (narrow words 0 cmd_vector)
