-- ===== src/Command/Execute.antt =====
-- command.c: `cmd_execute_command` and `cmd_execute_command_strict`, which differ in the filter only.
-- Handlers are called through a pointer: the outcome names the command to call and its arguments,
-- and the caller has the handlers.
pub mod Walk
pub mod Choice
pub mod Treat
pub mod Single
pub mod Stops
pub mod Safe
pub mod Sound
use mksh.Prelude.{
  ℕ, zero, suc, ◌+◌, Bool, true, false, not, ◌&&◌, ◌||◌, Option, none, some, List, [], ◌∷◌, ◌++◌,
  leb, ltb, ◌==◌, if◌then◌else◌, get_elem?, length,
}
use mksh.Cstr.{Bytes}
use mksh.Match.{MatchType, no_match, vararg_match}
use mksh.Command.Element.{Desc, Element, cmd_option, cmd_variable, cmd_vararg}
use mksh.Command.Filter.{
  Slots, Ambiguity, clear, ambiguous, incomplete, fault, cmd_filter_by_completion,
  cmd_filter_by_string, is_cmd_ambiguous,
}

-- The `CMD_...` values that the interpreter itself returns.
pub data Code : Type 0 where
  err_no_match err_ambiguous err_incomplete err_exeed_argc_max : Code

pub data Outcome : Type 0 where
  -- The error code that is returned.
  error : Code → Outcome
  -- CMD_SUCCESS_DAEMON: the caller runs the command.
  daemon : Element → Outcome
  -- The handler's call, with its arguments.
  run : Element → List Bytes → Outcome
  -- A read outside a vector.
  crash : Outcome

abbrev pub Filter : Type 0
Filter = Bytes → Slots → ℕ → Slots × MatchType

unfoldable pub is_vararg : MatchType → Bool
is_vararg vararg_match = true
is_vararg _ = false

-- Where the loop over the words ends: with a return, or with `index`, the slots and the last match.
pub data Walked : Type 0 where
  left : Outcome → Walked
  done : ℕ → Slots → MatchType → Walked

-- The tests of `ret`.
unfoldable pub after_check : Ambiguity → Slots → (Slots → Walked) → Walked
after_check clear v rest = rest v
after_check ambiguous v rest = left (error err_ambiguous)
after_check incomplete v rest = left (error err_no_match)
after_check fault v rest = left crash

-- One round, on the answer of the filter.
unfoldable pub round : Bytes → ℕ → Slots → MatchType → (Slots → Walked) → Walked
round command index v m rest = elim (is_vararg m) [
  | true ↦ done index v m
  | false ↦ let (a, w) = is_cmd_ambiguous command v index m in after_check a w rest
]

unfoldable pub walk_words : Filter → List Bytes → ℕ → Slots → MatchType → Walked
walk_words filter [] index v match = done index v match
walk_words filter (command ∷ vline) index v match =
    let (w, m) = filter command v index in
    round command index w m (λ u. walk_words filter vline (index + 1) u m)

pub record Counts : Type 0 where
  pub matched_element : Option Element
  pub matched_count : ℕ
  pub incomplete_count : ℕ

unfoldable pub enough_words : MatchType → ℕ → Element → Bool
unfolding is_vararg
enough_words match index e = is_vararg match || leb e.cmdsize index

unfoldable pub count_matches : Slots → MatchType → ℕ → Counts → Counts
count_matches [] match index n = n
count_matches (none ∷ v) match index n = count_matches v match index n
count_matches (some e ∷ v) match index n = count_matches v match index (
    if enough_words match index e
    then record n { matched_element = some e; matched_count = n.matched_count + 1 }
    else record n { incomplete_count = n.incomplete_count + 1 })

abbrev pub no_counts : Counts
no_counts = record { matched_element = none; matched_count = 0; incomplete_count = 0 }

abbrev pub cmd_argc_max : ℕ
cmd_argc_max = 25

-- How the argument treatment ends: with the arguments, at the limit, or at a missing description.
pub data Arguments : Type 0 where
  argv : List Bytes → Arguments
  exceeded : Arguments
  missing : Arguments

-- Is the word at this position an argument, and do all words from here on become arguments?
unfoldable pub takes_word : List Desc → Bool × Bool
takes_word (desc ∷ []) =
    (cmd_vararg desc.cmd || (cmd_variable desc.cmd || cmd_option desc.cmd), cmd_vararg desc.cmd)
takes_word _ = (true, false)

unfoldable pub keep_word : Bool → List Bytes → Bytes → List Bytes
keep_word taken args word = if taken then args ++ word ∷ [] else args

unfoldable pub treat_arguments : List Bytes → List (List Desc) → Bool → List Bytes → Arguments
treat_arguments [] strvec varflag args = argv args
treat_arguments (word ∷ vline) strvec true args =
    let args' = keep_word true args word in
    elim (leb cmd_argc_max (length args')) [
      | true ↦ exceeded
      | false ↦ treat_arguments vline strvec true args'
    ]
treat_arguments (word ∷ vline) [] false args = missing
treat_arguments (word ∷ vline) (descvec ∷ strvec) false args =
    let (taken, varflag) = takes_word descvec in
    let args' = keep_word taken args word in
    elim (leb cmd_argc_max (length args')) [
      | true ↦ exceeded
      | false ↦ treat_arguments vline strvec varflag args'
    ]

unfoldable pub call : Element → Arguments → Outcome
call e (argv args) = if e.daemon then daemon e else run e args
call e exceeded = error err_exeed_argc_max
call e missing = crash

-- With more than one match the answer is `err_ambiguous`; with one, `matched_element` is set.
unfoldable pub choose : List Bytes → Counts → Outcome
choose vline n =
    if n.matched_count == 0
    then error (if n.incomplete_count == 0 then err_no_match else err_incomplete)
    else if ltb 1 n.matched_count
    then error err_ambiguous
    else elim n.matched_element [
      | none ↦ crash
      | some e ↦ call e (treat_arguments vline e.strvec false [])
    ]

unfoldable pub finish : List Bytes → Walked → Outcome
finish vline (left o) = o
finish vline (done index v match) = choose vline (count_matches v match index no_counts)

unfoldable pub execute : Filter → List Bytes → Slots → Outcome
execute filter vline v = finish vline (walk_words filter vline 0 v no_match)

-- `cmd_vector` is the command vector of the node that the terminal is in.
pub cmd_execute_command : List Bytes → Slots → Outcome
cmd_execute_command vline cmd_vector = execute cmd_filter_by_completion vline cmd_vector

pub cmd_execute_command_strict : List Bytes → Slots → Outcome
cmd_execute_command_strict vline cmd_vector = execute cmd_filter_by_string vline cmd_vector
