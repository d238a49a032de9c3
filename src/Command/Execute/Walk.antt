-- ===== src/Command/Execute/Walk.antt =====
-- The loop over the words of `cmd_execute_command` and its strict twin.
use mksh.Prelude.{
  ℕ, suc, ◌+◌, ◌≤◌, ◌<◌, ◌≡◌, ◌≢◌, refl, ◌⊎◌, inl, inr, true, false, none, some, List, [], ◌∷◌,
  arith, take, length, Bool-cases,
}
use mksh.Cstr.{Bytes}
use mksh.Match.{MatchType, no_match}
use mksh.Command.Element.{Element}
use mksh.Command.Filter.{
  Slots, Test, Ambiguity, clear, ambiguous, incomplete, fault, is_cmd_ambiguous,
  cmd_filter_by_completion, cmd_filter_by_string, by_completion, by_string,
}
use mksh.Command.Filter.Keeps.{AllSlots, Takes, filter_slots-AllSlots}
use mksh.Command.Filter.Vararg.{SomeSlot}
use mksh.Command.Filter.Ambiguous.{Reaches, ambiguous_slots-AllSlots, ambiguous_slots-not-fault}
use mksh.Command.Execute.{
  err_ambiguous, err_no_match, round, error, Code, Filter, Walked, left, done, after_check,
  walk_words, is_vararg,
}

pub AllSlots-map :
    {P Q : Element → Type 0} (f : (e : Element) → P e → Q e) (v : Slots)
    → AllSlots P v
    → AllSlots Q v
AllSlots-map f [] h = tt
AllSlots-map f (none ∷ v) h = AllSlots-map f v h
AllSlots-map f (some e ∷ v) h = (f e h.0, AllSlots-map f v h.1)

-- What holds of every command and of some command holds together of some.
pub SomeSlot-with :
    (P Q : Element → Type 0) (v : Slots) → AllSlots P v → SomeSlot Q v → SomeSlot (λ e. P e × Q e) v
SomeSlot-with P Q [] a s = absurd s
SomeSlot-with P Q (none ∷ v) a s = SomeSlot-with P Q v a s
SomeSlot-with P Q (some e ∷ v) a (inl q) = inl (a.0, q)
SomeSlot-with P Q (some e ∷ v) a (inr s) = inr (SomeSlot-with P Q v a.1 s)

-- The specification takes the words, from position `index` on.
abbrev pub TakesAll : Test → List Bytes → ℕ → Element → Type 0
TakesAll test [] index e = Unit {0}
TakesAll test (w ∷ ws) index e = Takes test w index e × TakesAll test ws (index + 1) e

-- What a filter guarantees, as the loop over the words needs it.
abbrev pub IsFilter : Test → Filter → Type 1
IsFilter test filter =
    (P : Element → Type 0) (command : Bytes) (v : Slots) (index : ℕ)
    → AllSlots P v
    → AllSlots (λ e. P e × Takes test command index e) (filter command v index).0

pub by_completion-IsFilter : IsFilter by_completion cmd_filter_by_completion
unfolding cmd_filter_by_completion
by_completion-IsFilter P command v index h =
    filter_slots-AllSlots by_completion command index P v no_match h

pub by_string-IsFilter : IsFilter by_string cmd_filter_by_string
unfolding cmd_filter_by_string
by_string-IsFilter P command v index h =
    filter_slots-AllSlots by_string command index P v no_match h

-- At the end of the loop: the first `n` words were compared, which are all, or the match was on a
-- variable argument list at the last of them.
pub record Compared (test : Test) (P : Element → Type 0) (ws : List Bytes) (i k : ℕ) (v : Slots)
    (m : MatchType) : Type 0 where
  pub n : ℕ
  pub all : AllSlots (λ e. P e × TakesAll test (take n ws) i e) v
  pub ended :
      ((n ≡ length ws) × (k ≡ i + length ws) × (is_vararg m ≡ false))
      ⊎ ((is_vararg m ≡ true) × (0 < n) × (n ≤ length ws) × (i + n ≡ suc k))

abbrev pub WalksTo : Test → (Element → Type 0) → List Bytes → ℕ → Walked → Type 0
WalksTo test P ws i (left o) = (c : Code) × (o ≡ error c)
WalksTo test P ws i (done k v m) = Compared test P ws i k v m

AllSlots-Reaches :
    (test : Test) (P : Element → Type 0) (command : Bytes) (index : ℕ) (v : Slots)
    → AllSlots (λ e. P e × Takes test command index e) v
    → AllSlots (Reaches index) v
AllSlots-Reaches test P command index v h = AllSlots-map (λ e t. (t.1.descvec, t.1.there)) v h

module _ (command : Bytes) (index : ℕ) (v : Slots) (m : MatchType) (rest : Slots → Walked) where
  round-vararg : is_vararg m ≡ true → round command index v m rest ≡ done index v m
  unfolding round
  round-vararg e = rw (e, round) refl

  round-check :
      is_vararg m ≡ false
      → round command index v m rest
        ≡ after_check
            (is_cmd_ambiguous command v index m).0
            (is_cmd_ambiguous command v index m).1
            rest
  unfolding round
  round-check e = rw (e, round) refl

module _ (test : Test) (P : Element → Type 0) (command : Bytes) (ws : List Bytes) (index : ℕ) where
  abbrev Q : Element → Type 0
  Q e = P e × Takes test command index e

  -- What the rest of the loop proves of the rest of the words, for the whole.
  WalksTo-cons :
      (r : Walked) → WalksTo test Q ws (index + 1) r → WalksTo test P (command ∷ ws) index r
  WalksTo-cons (left o) h = h
  WalksTo-cons (done k v m) h = record {
    n = suc h.n;
    all = AllSlots-map (λ e t. (t.0.0, (t.0.1, t.1))) v h.all;
    ended = grow h.ended;
  }
    where
      grow :
          ((h.n ≡ length ws) × (k ≡ index + 1 + length ws) × (is_vararg m ≡ false))
            ⊎ ((is_vararg m ≡ true) × (0 < h.n) × (h.n ≤ length ws) × (index + 1 + h.n ≡ suc k))
          → ((suc h.n ≡ suc (length ws)) × (k ≡ index + suc (length ws)) × (is_vararg m ≡ false))
            ⊎ ((is_vararg m ≡ true)
                × (0 < suc h.n)
                × (suc h.n ≤ suc (length ws))
                × (index + suc h.n ≡ suc k))
      grow (inl (e, f, g)) = inl (omega arith, omega arith, g)
      grow (inr (e, p, q, g)) = inr (e, omega arith, omega arith, omega arith)

  checked :
      (a : Ambiguity) (v : Slots) (rest : Slots → Walked)
      → a ≢ fault
      → AllSlots Q v
      → ((u : Slots) → AllSlots Q u → WalksTo test Q ws (index + 1) (rest u))
      → WalksTo test P (command ∷ ws) index (after_check a v rest)
  unfolding after_check
  checked clear v rest n h k = WalksTo-cons (rest v) (k v h)
  checked ambiguous v rest n h k = (err_ambiguous, refl)
  checked incomplete v rest n h k = (err_no_match, refl)
  checked fault v rest n h k = absurd (n refl)

  round-WalksTo :
      (v : Slots) (m : MatchType) (rest : Slots → Walked)
      → AllSlots Q v
      → (is_vararg m ≡ false → (u : Slots) → AllSlots Q u → WalksTo test Q ws (index + 1) (rest u))
      → WalksTo test P (command ∷ ws) index (round command index v m rest)
  round-WalksTo v m rest h k = elim (Bool-cases (is_vararg m)) [
    | inl e ↦ rw (round-vararg command index v m rest e) (record {
      n = 1;
      all = AllSlots-map (λ f t. (t.0, (t.1, tt))) v h;
      ended = inr (e, omega arith, omega arith, omega arith);
    })
    | inr e ↦ rw (round-check command index v m rest e) (
        checked (is_cmd_ambiguous command v index m).0 (is_cmd_ambiguous command v index m).1 rest
          (unfold is_cmd_ambiguous in
            ambiguous_slots-not-fault command index m v none
              (AllSlots-Reaches test P command index v h))
          (unfold is_cmd_ambiguous in ambiguous_slots-AllSlots command index m Q v none h) (k e))
  ]

-- The loop ends, with one of the error codes or with commands that take the words compared.
pub walk_words-WalksTo :
    (test : Test) (filter : Filter) (F : IsFilter test filter) (P : Element → Type 0)
    (ws : List Bytes) (index : ℕ) (v : Slots) (m : MatchType)
    → is_vararg m ≡ false
    → AllSlots P v
    → WalksTo test P ws index (walk_words filter ws index v m)
unfolding walk_words
walk_words-WalksTo test filter F P [] index v m g h = record {
  n = 0;
  all = AllSlots-map (λ e p. (p, tt)) v h;
  ended = inl (refl, omega arith, g);
}
walk_words-WalksTo test filter F P (command ∷ ws) index v m g h =
    round-WalksTo test P command ws index (filter command v index).0 (filter command v index).1
      (λ u. walk_words filter ws (index + 1) u (filter command v index).1) (F P command v index h)
      (λ e u hu.
        walk_words-WalksTo test filter F (λ e. P e × Takes test command index e) ws (index + 1) u
          (filter command v index).1 e hu)
