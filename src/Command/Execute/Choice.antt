-- ===== src/Command/Execute/Choice.antt =====
-- The count of the commands that are left, and the arguments of the one that is run.
use mksh.Prelude.{
  ℕ, ◌+◌, ◌<◌, ◌≡◌, refl, ◌⊎◌, inl, inr, Bool, true, false, Option, none, some, List, [], ◌∷◌,
  arith, if◌then◌else◌, length, Bool-cases, leb,
}
use mksh.Cstr.{Bytes}
use mksh.Match.{MatchType}
use mksh.Command.Element.{Desc, Element}
use mksh.Command.Filter.{Slots}
use mksh.Command.Filter.Keeps.{AllSlots}
use mksh.Command.Execute.{
  Counts, count_matches, enough_words, Arguments, argv, exceeded, missing, takes_word, keep_word,
  treat_arguments, cmd_argc_max,
}

-- The element that the count has found.
abbrev pub Found : (Element → Type 0) → Option Element → Type 0
Found P none = Unit {0}
Found P (some e) = P e

pub Found-map :
    {P Q : Element → Type 0} (f : (e : Element) → P e → Q e) (o : Option Element)
    → Found P o
    → Found Q o
Found-map f none h = tt
Found-map f (some e) h = f e h

pub count_matches-Found :
    (P : Element → Type 0) (v : Slots) (m : MatchType) (index : ℕ) (n : Counts)
    → AllSlots P v
    → Found (λ e. P e × (enough_words m index e ≡ true)) n.matched_element
    → Found (λ e. P e × (enough_words m index e ≡ true)) (count_matches v m index n).matched_element
unfolding count_matches
count_matches-Found P [] m index n h f = f
count_matches-Found P (none ∷ v) m index n h f = count_matches-Found P v m index n h f
count_matches-Found P (some e ∷ v) m index n h f =
    count_matches-Found P v m index
      (if enough_words m index e
        then record n { matched_element = some e; matched_count = n.matched_count + 1 }
        else record n { incomplete_count = n.incomplete_count + 1 })
      h.1 (found (Bool-cases (enough_words m index e)))
  where
    found :
        (enough_words m index e ≡ true) ⊎ (enough_words m index e ≡ false)
        → Found
            (λ e. P e × (enough_words m index e ≡ true))
            (if enough_words m index e
              then record n { matched_element = some e; matched_count = n.matched_count + 1 }
              else record n { incomplete_count = n.incomplete_count + 1 }).matched_element
    found (inl b) = rw b (h.0, b)
    found (inr b) = rw b f

-- The arguments fit `argv`, which has room for CMD_ARGC_MAX of them.
abbrev pub Fits : Arguments → Type 0
Fits (argv args) = length args < cmd_argc_max
Fits exceeded = Unit {0}
Fits missing = Unit {0}

Fits-next :
    (args : List Bytes) (rest : Arguments)
    → (length args < cmd_argc_max → Fits rest)
    → Fits (elim (leb cmd_argc_max (length args)) as (λ _. Arguments) [
      | true ↦ exceeded
      | false ↦ rest
    ])
Fits-next args rest k = elim (Bool-cases (leb cmd_argc_max (length args))) [
  | inl e ↦ rw e tt
  | inr e ↦ rw e (k (ground arith))
]

pub treat_arguments-Fits :
    (ws : List Bytes) (strvec : List (List Desc)) (varflag : Bool) (args : List Bytes)
    → length args < cmd_argc_max
    → Fits (treat_arguments ws strvec varflag args)
unfolding treat_arguments
treat_arguments-Fits [] strvec varflag args h = h
treat_arguments-Fits (w ∷ ws) [] true args h =
    Fits-next (keep_word true args w) (treat_arguments ws [] true (keep_word true args w))
      (treat_arguments-Fits ws [] true (keep_word true args w))
treat_arguments-Fits (w ∷ ws) (d ∷ strvec) true args h =
    Fits-next (keep_word true args w) (treat_arguments ws (d ∷ strvec) true (keep_word true args w))
      (treat_arguments-Fits ws (d ∷ strvec) true (keep_word true args w))
treat_arguments-Fits (w ∷ ws) [] false args h = tt
treat_arguments-Fits (w ∷ ws) (d ∷ strvec) false args h =
    let next : List Bytes = keep_word (takes_word d).0 args w in
    Fits-next next (treat_arguments ws strvec (takes_word d).1 next)
      (treat_arguments-Fits ws strvec (takes_word d).1 next)

-- A match counted is a match remembered.
abbrev pub Counted : Counts → Type 0
Counted n = (n.matched_count ≡ 0) ⊎ ((e : Element) × (n.matched_element ≡ some e))

pub count_matches-Counted :
    (v : Slots) (m : MatchType) (index : ℕ) (n : Counts)
    → Counted n
    → Counted (count_matches v m index n)
unfolding count_matches
count_matches-Counted [] m index n c = c
count_matches-Counted (none ∷ v) m index n c = count_matches-Counted v m index n c
count_matches-Counted (some e ∷ v) m index n c =
    count_matches-Counted v m index
      (if enough_words m index e
        then record n { matched_element = some e; matched_count = n.matched_count + 1 }
        else record n { incomplete_count = n.incomplete_count + 1 })
      (counted (Bool-cases (enough_words m index e)))
  where
    counted :
        (enough_words m index e ≡ true) ⊎ (enough_words m index e ≡ false)
        → Counted (
            if enough_words m index e
            then record n { matched_element = some e; matched_count = n.matched_count + 1 }
            else record n { incomplete_count = n.incomplete_count + 1 })
    counted (inl b) = rw b (inr (e, refl))
    counted (inr b) = rw b c
