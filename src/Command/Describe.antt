-- ===== src/Command/Describe.antt =====
-- command.c: `cmd_describe_command` (the question mark). The line is the words in front of the current
-- one, and the current word, which is NULL behind a blank.
pub mod Listing
pub mod Answers
use mksh.Prelude.{
  ℕ, ◌+◌, true, false, Option, none, some, List, [], ◌∷◌, ◌++◌, ◌==◌, if◌then◌else◌, get_elem?,
  length, is_some,
}
use mksh.Cstr.{Bytes}
use mksh.Match.{MatchType}
use mksh.Command.Element.{Desc, Element, codes}
use mksh.Command.Filter.{
  Slots, Ambiguity, clear, ambiguous, incomplete, fault, cmd_filter_by_completion, is_cmd_ambiguous,
}
use mksh.Command.Execute.{is_vararg}
use mksh.Command.Complete.{
  cmd_entry_function_desc, desc_unique_string, Status, success, err_ambiguous, err_no_match,
}

-- What `cmd_describe_command` gives: `*status` if it is assigned, and the descriptions.
pub record Description : Type 0 where
  pub status : Option Status
  pub descs : List Desc

abbrev pub desc_cr : Desc
desc_cr = record { cmd = codes "<cr>"; str = some [] }

-- The last word of each command that is left; `none` is a read in front of an empty vector.
unfoldable pub last_descs : List (List Desc) → Option (List Desc)
last_descs [] = none
last_descs (descvec ∷ []) = some descvec
last_descs (descvec ∷ k ∷ strvec) = last_descs (k ∷ strvec)

unfoldable pub vararg_descs : Slots → List Desc → Option (List Desc)
unfolding last_descs
vararg_descs [] matchvec = some matchvec
vararg_descs (none ∷ v) matchvec = vararg_descs v matchvec
vararg_descs (some e ∷ v) matchvec = elim (last_descs e.strvec) [
  | none ↦ none
  | some descvec ↦ vararg_descs v (matchvec ++ descvec)
]

-- Behind the `vararg_match`: the return does not assign `*status`.
unfoldable pub describe_vararg : Slots → Option Description
unfolding vararg_descs
describe_vararg v = elim (vararg_descs v []) [
  | none ↦ none
  | some matchvec ↦ some (record { status = none; descs = matchvec ++ desc_cr ∷ [] })
]

-- `matchvec` gets the description, unless one of the same text is there.
unfoldable pub add_unique : List Desc → Bytes → Desc → List Desc
add_unique matchvec string desc =
    if desc_unique_string matchvec string then matchvec else matchvec ++ desc ∷ []

unfoldable pub describe_descs : Option Bytes → List Desc → List Desc → List Desc
unfolding add_unique
describe_descs command [] matchvec = matchvec
describe_descs command (desc ∷ descvec) matchvec =
    describe_descs command descvec (elim (cmd_entry_function_desc command desc.cmd) [
      | none ↦ matchvec
      | some string ↦ add_unique matchvec string desc
    ])

-- One command at `index`; `none` is a read outside its vector.
unfoldable pub describe_element : Option Bytes → ℕ → Element → List Desc → Option (List Desc)
unfolding add_unique describe_descs
describe_element command index e matchvec = elim (get_elem? e.strvec index) [
  | some descvec ↦ some (describe_descs command descvec matchvec)
  | none ↦
      if is_some command
      then some matchvec
      else if index == length e.strvec
      then some (add_unique matchvec desc_cr.cmd desc_cr)
      else none
]

unfoldable pub describe_slots : Option Bytes → ℕ → Slots → List Desc → Option (List Desc)
unfolding describe_element
describe_slots command index [] matchvec = some matchvec
describe_slots command index (none ∷ v) matchvec = describe_slots command index v matchvec
describe_slots command index (some e ∷ v) matchvec =
    elim (describe_element command index e matchvec) [
      | none ↦ none
      | some descs ↦ describe_slots command index v descs
    ]

-- `vector_slot (matchvec, 0) == NULL`. The code frees the empty vector then and returns the pointer to
-- it, behind which there is nothing to read: no description here.
unfoldable pub described : List Desc → Description
described [] = record { status = some err_no_match; descs = [] }
described (desc ∷ matchvec) = record { status = some success; descs = desc ∷ matchvec }

-- The current word rules out commands too.
unfoldable pub filter_current : Option Bytes → ℕ → Slots → Slots
filter_current none index v = v
filter_current (some command) index v = (cmd_filter_by_completion command v index).0

unfoldable pub describe_current : Option Bytes → ℕ → Slots → Option Description
unfolding describe_slots described filter_current
describe_current command index v =
    elim (describe_slots command index (filter_current command index v) []) [
      | none ↦ none
      | some matchvec ↦ some (described matchvec)
    ]

-- One round of the loop over the words in front, on the answer of the filter.
unfoldable pub describe_check :
    Ambiguity → Slots → (Slots → Option Description) → Option Description
describe_check clear v rest = rest v
describe_check ambiguous v rest = some (record { status = some err_ambiguous; descs = [] })
describe_check incomplete v rest = some (record { status = some err_no_match; descs = [] })
describe_check fault v rest = none

unfoldable pub describe_round :
    Bytes → ℕ → Slots → MatchType → (Slots → Option Description) → Option Description
unfolding describe_vararg describe_check
describe_round command index v m rest = elim (is_vararg m) [
  | true ↦ describe_vararg v
  | false ↦ let (a, u) = is_cmd_ambiguous command v index m in describe_check a u rest
]

unfoldable pub describe_words : List Bytes → Option Bytes → ℕ → Slots → Option Description
unfolding describe_round describe_current
describe_words [] current index v = describe_current current index v
describe_words (command ∷ vline) current index v =
    let (w, m) = cmd_filter_by_completion command v index in
    describe_round command index w m (λ u. describe_words vline current (index + 1) u)

-- `none` is a read outside a vector.
unfoldable pub cmd_describe_command : List Bytes → Option Bytes → Slots → Option Description
unfolding describe_words
cmd_describe_command words current cmd_vector = describe_words words current 0 cmd_vector
