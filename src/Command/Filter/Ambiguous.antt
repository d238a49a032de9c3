-- ===== src/Command/Filter/Ambiguous.antt =====
-- What `is_cmd_ambiguous` leaves in the slots, and what it reads.
use mksh.Prelude.{
  ℕ, ◌≡◌, ◌≢◌, inl, inr, Bool, true, false, ◌&&◌, Option, none, some, List, [], ◌∷◌, if◌then◌else◌,
  get_elem?, Bool-cases,
}
use mksh.Cstr.{Bytes, is_prefix}
use mksh.Match.{
  MatchType, no_match, ipv4_prefix_match, ipv6_prefix_match, range_match, partly_match,
}
use mksh.Match.Ipv4.{cmd_ipv4_prefix_match}
use mksh.Match.Ipv6Prefix.{cmd_ipv6_prefix_match}
use mksh.Match.Range.{cmd_range_match}
use mksh.Command.Element.{Desc, Element}
use mksh.Command.Filter.{
  Slots, Test, by_completion, by_string, filter_slots, cmd_filter_by_completion,
  cmd_filter_by_string, is_cmd_ambiguous, Inspection, returns, continues, inspect_slot,
  inspect_descs, Ambiguity, fault, ambiguous_slots, resume, inspect, and_then, same_word,
  whole_prefix, differs, fixed_word,
}
use mksh.Command.Filter.Keeps.{AllSlots, Takes, filter_slots-AllSlots}

module _ (command : Bytes) (index : ℕ) (type : MatchType) where
  AllSlots-if :
      (P : Element → Type 0) (b : Bool) (slot : Option Element) (v w : Slots)
      → AllSlots P (slot ∷ v)
      → AllSlots P w
      → AllSlots P ((if b then slot else none) ∷ w)
  AllSlots-if P true none v w h k = k
  AllSlots-if P true (some e) v w h k = (h.0, k)
  AllSlots-if P false slot v w h k = k

  AllSlots-tail :
      (P : Element → Type 0) (slot : Option Element) (v : Slots)
      → AllSlots P (slot ∷ v)
      → AllSlots P v
  AllSlots-tail P none v h = h
  AllSlots-tail P (some e) v h = h.1

  resume-AllSlots :
      (P : Element → Type 0) (slot : Option Element) (v : Slots) (r : Inspection)
      (rest : Option Bytes → Ambiguity × Slots)
      → AllSlots P (slot ∷ v)
      → ((m : Option Bytes) → AllSlots P (rest m).1)
      → AllSlots P (resume slot v r rest).1
  unfolding resume
  resume-AllSlots P slot v (returns a) rest h k = h
  resume-AllSlots P slot v (continues m found) rest h k =
      AllSlots-if P found slot v (rest m).1 h (k m)

  -- `is_cmd_ambiguous` only clears slots, also where it returns early: what holds of all the commands
  -- in them before holds after it.
  pub ambiguous_slots-AllSlots :
      (P : Element → Type 0) (v : Slots) (matched : Option Bytes)
      → AllSlots P v
      → AllSlots P (ambiguous_slots command v index type matched).1
  unfolding ambiguous_slots
  ambiguous_slots-AllSlots P [] matched h = tt
  ambiguous_slots-AllSlots P (slot ∷ v) matched h =
      resume-AllSlots P slot v (inspect_slot type command index slot matched)
        (λ m. ambiguous_slots command v index type m) h
        (λ m. ambiguous_slots-AllSlots P v m (AllSlots-tail P slot v h))

-- The loops read no slot outside a command's vector.
abbrev IsSafe : Inspection → Type 0
IsSafe (returns fault) = ⊥
IsSafe _ = Unit {0}

and_then-IsSafe :
    (r : Inspection) (rest : Option Bytes → Bool → Inspection)
    → IsSafe r
    → ((m : Option Bytes) (f : Bool) → IsSafe (rest m f))
    → IsSafe (and_then r rest)
unfolding and_then
and_then-IsSafe (returns a) rest h k = h
and_then-IsSafe (continues m f) rest h k = k m f

same_word-IsSafe :
    (here : Bool) (str : Bytes) (matched : Option Bytes) (found : Bool)
    → IsSafe (same_word here str matched found)
unfolding same_word
same_word-IsSafe false str matched found = tt
same_word-IsSafe true str matched found = elim (Bool-cases (differs matched str)) [
  | inl d ↦ rw d tt
  | inr n ↦ rw n tt
]

whole_prefix-IsSafe :
    (m : MatchType) (matched : Option Bytes) (found : Bool) → IsSafe (whole_prefix m matched found)
unfolding whole_prefix
whole_prefix-IsSafe no_match matched found = tt
whole_prefix-IsSafe _ matched found = tt

inspect-IsSafe :
    (type : MatchType) (command str : Bytes) (matched : Option Bytes) (found : Bool)
    → IsSafe (inspect type command str matched found)
unfolding inspect
inspect-IsSafe partly_match command str matched found =
    same_word-IsSafe (fixed_word str && is_prefix command str) str matched found
inspect-IsSafe range_match command str matched found =
    same_word-IsSafe (cmd_range_match str (some command)) str matched found
inspect-IsSafe ipv6_prefix_match command str matched found =
    whole_prefix-IsSafe (cmd_ipv6_prefix_match (some command)) matched found
inspect-IsSafe ipv4_prefix_match command str matched found =
    whole_prefix-IsSafe (cmd_ipv4_prefix_match (some command)) matched found
inspect-IsSafe _ command str matched found = tt

inspect_descs-IsSafe :
    (type : MatchType) (command : Bytes) (descvec : List Desc) (matched : Option Bytes)
    (found : Bool)
    → IsSafe (inspect_descs type command descvec matched found)
unfolding inspect_descs
inspect_descs-IsSafe type command [] matched found = tt
inspect_descs-IsSafe type command (desc ∷ descvec) matched found =
    and_then-IsSafe (inspect type command desc.cmd matched found)
      (λ m f. inspect_descs type command descvec m f)
      (inspect-IsSafe type command desc.cmd matched found)
      (λ m f. inspect_descs-IsSafe type command descvec m f)

-- The command has a word at this position.
abbrev pub Reaches : ℕ → Element → Type 0
Reaches index e = (descvec : List Desc) × (get_elem? e.strvec index ≡ some descvec)

inspect_slot-IsSafe :
    (type : MatchType) (command : Bytes) (index : ℕ) (e : Element) (matched : Option Bytes)
    → Reaches index e
    → IsSafe (inspect_slot type command index (some e) matched)
unfolding inspect_slot
inspect_slot-IsSafe type command index e matched (descvec, there) =
    rw (there, inspect_slot) (inspect_descs-IsSafe type command descvec matched false)

resume-not-fault :
    (slot : Option Element) (v : Slots) (r : Inspection) (rest : Option Bytes → Ambiguity × Slots)
    → IsSafe r
    → ((m : Option Bytes) → (rest m).0 ≢ fault)
    → (resume slot v r rest).0 ≢ fault
unfolding resume
resume-not-fault slot v (returns fault) rest h k = absurd h
resume-not-fault slot v (returns _) rest h k = λ e. cc
resume-not-fault slot v (continues m f) rest h k = k m

-- Where every command in the slots has a word at the position, `is_cmd_ambiguous` reads no slot that
-- is not there.
pub ambiguous_slots-not-fault :
    (command : Bytes) (index : ℕ) (type : MatchType) (v : Slots) (matched : Option Bytes)
    → AllSlots (Reaches index) v
    → (ambiguous_slots command v index type matched).0 ≢ fault
unfolding ambiguous_slots
ambiguous_slots-not-fault command index type [] matched h = λ e. cc
ambiguous_slots-not-fault command index type (none ∷ v) matched h =
    resume-not-fault none v (inspect_slot type command index none matched)
      (λ m. ambiguous_slots command v index type m) (unfold inspect_slot in tt)
      (λ m. ambiguous_slots-not-fault command index type v m h)
ambiguous_slots-not-fault command index type (some e ∷ v) matched h =
    resume-not-fault (some e) v (inspect_slot type command index (some e) matched)
      (λ m. ambiguous_slots command v index type m)
      (inspect_slot-IsSafe type command index e matched h.0)
      (λ m. ambiguous_slots-not-fault command index type v m h.1)

Takes-Reaches :
    (test : Test) (P : Element → Type 0) (word : Bytes) (index : ℕ) (v : Slots)
    → AllSlots (λ e. P e × Takes test word index e) v
    → AllSlots (Reaches index) v
Takes-Reaches test P word index [] h = tt
Takes-Reaches test P word index (none ∷ v) h = Takes-Reaches test P word index v h
Takes-Reaches test P word index (some e ∷ v) h =
    ((h.0.1.descvec, h.0.1.there), Takes-Reaches test P word index v h.1)

filtered-not-fault :
    (test : Test) (command : Bytes) (v : Slots) (index : ℕ) (type : MatchType)
    → (is_cmd_ambiguous command (filter_slots test command index v no_match).0 index type).0 ≢ fault
unfolding is_cmd_ambiguous
filtered-not-fault test command v index type =
    ambiguous_slots-not-fault command index type (filter_slots test command index v no_match).0 none
      (Takes-Reaches test Any command index (filter_slots test command index v no_match).0
        (filter_slots-AllSlots test command index Any v no_match (all v)))
  where
    Any : Element → Type 0
    Any e = Unit {0}

    all : (v : Slots) → AllSlots Any v
    all [] = tt
    all (none ∷ v) = all v
    all (some e ∷ v) = (tt, all v)

-- Behind either filter, of the same word at the same position, `is_cmd_ambiguous` reads no slot that is
-- not there, whatever the table and the position: the filters clear the commands that are too short.
pub is_cmd_ambiguous-not-fault :
    (command : Bytes) (v : Slots) (index : ℕ) (type : MatchType)
    → ((is_cmd_ambiguous command (cmd_filter_by_completion command v index).0 index type).0 ≢ fault)
      × ((is_cmd_ambiguous command (cmd_filter_by_string command v index).0 index type).0 ≢ fault)
unfolding cmd_filter_by_completion cmd_filter_by_string
is_cmd_ambiguous-not-fault command v index type = (
  filtered-not-fault by_completion command v index type,
  filtered-not-fault by_string command v index type,
)
