-- ===== src/Command/Filter/Sift.antt =====
-- Which commands `is_cmd_ambiguous` keeps where it does not return early.
use mksh.Prelude.{ℕ, ◌≡◌, ◌≢◌, ◌⊎◌, Bool, true, false, none, some, List, [], ◌∷◌, ◌++◌, get_elem?}
use mksh.Cstr.{Bytes}
use mksh.Match.{
  MatchType, no_match, extend_match, ipv4_prefix_match, ipv4_match, ipv6_prefix_match, ipv6_match,
  range_match, partly_match, exact_match,
}
use mksh.Match.Ipv4.{cmd_ipv4_prefix_match}
use mksh.Match.Ipv6Prefix.{cmd_ipv6_prefix_match}
use mksh.Match.Range.{cmd_range_match}
use mksh.Command.Element.{Desc, Element, codes}
use mksh.Command.Filter.{Slots, Inspection, returns, continues, clear, fixed_word}

-- A word of a specification meets the typed word in the way that the match type says.
abbrev pub Meets : MatchType → Bytes → Bytes → Type 0
Meets exact_match command str = (fixed_word str ≡ true) × (str ≡ command)
Meets partly_match command str =
    (fixed_word str ≡ true) × ((rest : Bytes) × (str ≡ command ++ rest))
Meets range_match command str = cmd_range_match str (some command) ≡ true
Meets ipv6_match command str = str ≡ codes "X:X::X:X"
Meets ipv6_prefix_match command str = cmd_ipv6_prefix_match (some command) ≢ no_match
Meets ipv4_match command str = str ≡ codes "A.B.C.D"
Meets ipv4_prefix_match command str = cmd_ipv4_prefix_match (some command) ≢ no_match
Meets extend_match command str = fixed_word str ≡ false
Meets _ command str = ⊥

abbrev pub MeetsOne : MatchType → Bytes → List Desc → Type 0
MeetsOne type command [] = ⊥
MeetsOne type command (desc ∷ descvec) = Meets type command desc.cmd ⊎ MeetsOne type command descvec

-- One of the command's alternatives at the position meets the typed word.
abbrev pub MeetsAt : MatchType → Bytes → ℕ → Element → Type 0
MeetsAt type command index e =
    (descvec : List Desc) × ((get_elem? e.strvec index ≡ some descvec)
      × MeetsOne type command descvec)

-- The slots before and after, one by one: the commands that meet the word stay in their slots, and the
-- slots of the others are cleared.
abbrev pub Sifted : MatchType → Bytes → ℕ → Slots → Slots → Type 0
Sifted type command index [] [] = Unit {0}
Sifted type command index (none ∷ v) (none ∷ w) = Sifted type command index v w
Sifted type command index (some e ∷ v) (some f ∷ w) =
    (f ≡ e) × (MeetsAt type command index e × Sifted type command index v w)
Sifted type command index (some e ∷ v) (none ∷ w) =
    (MeetsAt type command index e → ⊥) × Sifted type command index v w
Sifted type command index _ _ = ⊥

-- The flag `f` is set if `found` was, or `P` holds, and else it is not.
record Tells (found f : Bool) (P : Type 0) : Type 0 where
  only : f ≡ true → (found ≡ true) ⊎ P
  old : found ≡ true → f ≡ true
  new : P → f ≡ true

-- An inspection returns, but never with 0, or it goes on with the flag.
abbrev Inspects : Bool → Type 0 → Inspection → Type 0
Inspects found P (returns a) = a ≢ clear
Inspects found P (continues m f) = Tells found f P
