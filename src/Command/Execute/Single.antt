-- ===== src/Command/Execute/Single.antt =====
-- The count of the commands that are left behind a variable argument list.
use mksh.Prelude.{
  ℕ, suc, ◌+◌, ◌≤◌, ◌≡◌, refl, sym, ap, ◌∙◌, inl, inr, true, none, some, [], ◌∷◌, arith,
}
use mksh.Match.{MatchType}
use mksh.Command.Element.{Element}
use mksh.Command.Filter.{Slots}
use mksh.Command.Filter.Vararg.{SomeSlot}
use mksh.Command.Execute.{is_vararg, Counts, count_matches, enough_words}
use mksh.Command.Execute.Choice.{Found}

module _ (m : MatchType) (index : ℕ) (va : is_vararg m ≡ true) where
  abbrev counting : Element → Counts → Counts
  counting e n = record n { matched_element = some e; matched_count = n.matched_count + 1 }

  enough : (e : Element) → enough_words m index e ≡ true
  unfolding enough_words
  enough e = rw va refl

  count_step :
      (e : Element) (v : Slots) (n : Counts)
      → count_matches (some e ∷ v) m index n ≡ count_matches v m index (counting e n)
  unfolding count_matches
  count_step e v n = rw (enough e) refl

  count_none :
      (v : Slots) (n : Counts) → count_matches (none ∷ v) m index n ≡ count_matches v m index n
  unfolding count_matches
  count_none v n = refl

  count_nil : (n : Counts) → count_matches [] m index n ≡ n
  unfolding count_matches
  count_nil n = refl

  count_ge : (v : Slots) (n : Counts) → n.matched_count ≤ (count_matches v m index n).matched_count
  count_ge [] n = rw (count_nil n) (omega arith)
  count_ge (none ∷ v) n = rw (count_none v n) (count_ge v n)
  count_ge (some e ∷ v) n = rw (count_step e v n) (omega (arith, count_ge v (counting e n)))

  count_some :
      (P : Element → Type 0) (v : Slots) (n : Counts)
      → SomeSlot P v
      → suc n.matched_count ≤ (count_matches v m index n).matched_count
  count_some P [] n s = absurd s
  count_some P (none ∷ v) n s = rw (count_none v n) (count_some P v n s)
  count_some P (some e ∷ v) n s = rw (count_step e v n) (omega (arith, count_ge v (counting e n)))

  count_keep :
      (v : Slots) (n : Counts)
      → (count_matches v m index n).matched_count ≡ n.matched_count
      → (count_matches v m index n).matched_element ≡ n.matched_element
  count_keep [] n h = rw (count_nil n) refl
  count_keep (none ∷ v) n h = rw (count_none v n) (count_keep v n (rw (count_none v n) at h))
  count_keep (some e ∷ v) n h = absurd (
      omega
        (arith, count_ge v (counting e n), sym (ap (λ c. c.matched_count) (count_step e v n)) ∙ h))

  -- If one command is counted, it is the one that is known to be there.
  pub count_matches-single :
      (P : Element → Type 0) (v : Slots) (n : Counts)
      → SomeSlot P v
      → n.matched_count ≡ 0
      → (count_matches v m index n).matched_count ≡ 1
      → Found P (count_matches v m index n).matched_element
  count_matches-single P [] n s z h = absurd s
  count_matches-single P (none ∷ v) n s z h =
      rw (count_none v n) (count_matches-single P v n s z (rw (count_none v n) at h))
  count_matches-single P (some e ∷ v) n (inl p) z h =
      let one : (count_matches v m index (counting e n)).matched_count ≡ 1 =
        sym (ap (λ c. c.matched_count) (count_step e v n)) ∙ h in
      rw (count_step e v n) (rw (count_keep v (counting e n) (omega (arith, one, z))) p)
  count_matches-single P (some e ∷ v) n (inr s) z h = absurd (
      omega (
        arith,
        z,
        count_some P v (counting e n) s,
        sym (ap (λ c. c.matched_count) (count_step e v n)) ∙ h,
      ))
