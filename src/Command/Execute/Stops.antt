-- ===== src/Command/Execute/Stops.antt =====
-- The loop of the executors over the words, where it stops at a variable argument list.
use mksh.Prelude.{ℕ, ◌+◌, ◌≡◌, refl, inl, inr, true, false, List, [], ◌∷◌, Bool-cases}
use mksh.Cstr.{Bytes}
use mksh.Match.{
  MatchType, no_match, extend_match, ipv4_prefix_match, ipv4_match, ipv6_prefix_match, ipv6_match,
  range_match, vararg_match, partly_match, exact_match,
}
use mksh.Command.Filter.{
  Slots, Ambiguity, clear, ambiguous, incomplete, fault, is_cmd_ambiguous, by_completion, by_string,
  cmd_filter_by_completion, cmd_filter_by_string,
}
use mksh.Command.Filter.Vararg.{
  VarargAt, SomeSlot, by_completion-IsDotted, by_string-IsDotted, filter_slots-SomeSlot,
}
use mksh.Command.Execute.{Filter, Walked, left, done, round, after_check, walk_words, is_vararg}

-- A filter that answers `vararg_match` leaves a command with such a list at the position.
abbrev pub FindsVararg : Filter → Type 0
FindsVararg filter =
    (command : Bytes) (v : Slots) (index : ℕ)
    → is_vararg (filter command v index).1 ≡ true
    → SomeSlot (VarargAt index) (filter command v index).0

is_vararg-eq : (m : MatchType) → is_vararg m ≡ true → m ≡ vararg_match
unfolding is_vararg
is_vararg-eq no_match h = cc
is_vararg-eq extend_match h = cc
is_vararg-eq ipv4_prefix_match h = cc
is_vararg-eq ipv4_match h = cc
is_vararg-eq ipv6_prefix_match h = cc
is_vararg-eq ipv6_match h = cc
is_vararg-eq range_match h = cc
is_vararg-eq vararg_match h = refl
is_vararg-eq partly_match h = cc
is_vararg-eq exact_match h = cc

pub by_completion-FindsVararg : FindsVararg cmd_filter_by_completion
unfolding cmd_filter_by_completion
by_completion-FindsVararg command v index h =
    elim (filter_slots-SomeSlot by_completion command by_completion-IsDotted index v no_match
      (is_vararg-eq (cmd_filter_by_completion command v index).1 h)) [ inl e ↦ cc | inr s ↦ s ]

pub by_string-FindsVararg : FindsVararg cmd_filter_by_string
unfolding cmd_filter_by_string
by_string-FindsVararg command v index h =
    elim (filter_slots-SomeSlot by_string command by_string-IsDotted index v no_match
      (is_vararg-eq (cmd_filter_by_string command v index).1 h)) [ inl e ↦ cc | inr s ↦ s ]

-- Where the loop stops with a variable argument list.
abbrev pub StopsAt : Walked → Type 0
StopsAt (left o) = Unit {0}
StopsAt (done k v m) = is_vararg m ≡ true → SomeSlot (VarargAt k) v

after_check-StopsAt :
    (a : Ambiguity) (v : Slots) (rest : Slots → Walked)
    → ((u : Slots) → StopsAt (rest u))
    → StopsAt (after_check a v rest)
unfolding after_check
after_check-StopsAt clear v rest h = h v
after_check-StopsAt ambiguous v rest h = tt
after_check-StopsAt incomplete v rest h = tt
after_check-StopsAt fault v rest h = tt

round-StopsAt :
    (command : Bytes) (index : ℕ) (v : Slots) (m : MatchType) (rest : Slots → Walked)
    → (is_vararg m ≡ true → SomeSlot (VarargAt index) v)
    → (is_vararg m ≡ false → (u : Slots) → StopsAt (rest u))
    → StopsAt (round command index v m rest)
unfolding round
round-StopsAt command index v m rest s h = elim (Bool-cases (is_vararg m)) [
  | inl b ↦ rw (b, round) s
  | inr b ↦
      rw (b, round)
        (after_check-StopsAt (is_cmd_ambiguous command v index m).0
          (is_cmd_ambiguous command v index m).1 rest (h b))
]

pub walk_words-StopsAt :
    (filter : Filter) (F : FindsVararg filter) (ws : List Bytes) (index : ℕ) (v : Slots)
    (m : MatchType)
    → is_vararg m ≡ false
    → StopsAt (walk_words filter ws index v m)
unfolding walk_words
walk_words-StopsAt filter F [] index v m g = λ h. cc
walk_words-StopsAt filter F (command ∷ ws) index v m g =
    round-StopsAt command index (filter command v index).0 (filter command v index).1
      (λ u. walk_words filter ws (index + 1) u (filter command v index).1) (F command v index)
      (λ e u. walk_words-StopsAt filter F ws (index + 1) u (filter command v index).1 e)
