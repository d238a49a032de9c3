-- ===== src/Command/Filter/Keeps.antt =====
-- What the filters leave in the slots.
use mksh.Prelude.{
  ℕ, ◌≡◌, ◌≢◌, refl, sym, ap, ◌∙◌, ◌⊎◌, inl, inr, Bool, true, false, Option, none, some, List, [],
  ◌∷◌, if◌then◌else◌, get_elem?, Option-cases, Bool-cases,
}
use mksh.Cstr.{Bytes}
use mksh.Match.{MatchType}
use mksh.Command.Element.{Desc, Element}
use mksh.Command.Filter.{Slots, Test, filter_descs, filter_slot, filter_slots}

-- Every command in the slots.
abbrev pub AllSlots : (Element → Type 0) → Slots → Type 0
AllSlots P [] = Unit {0}
AllSlots P (none ∷ v) = AllSlots P v
AllSlots P (some e ∷ v) = P e × AllSlots P v

-- One of the alternatives meets the word.
abbrev pub Meets : Test → Bytes → List Desc → Type 0
Meets test word [] = ⊥
Meets test word (desc ∷ descvec) = (test word desc.cmd ≢ none) ⊎ Meets test word descvec

-- The command has a word at this position, and the typed word meets it.
pub record Takes (test : Test) (word : Bytes) (index : ℕ) (e : Element) : Type 0 where
  pub descvec : List Desc
  pub there : get_elem? e.strvec index ≡ some descvec
  pub meets : Meets test word descvec

or_later :
    (test : Test) (word : Bytes) (desc : Desc) (descvec : List Desc) {b : Bool}
    → (b ≡ true) ⊎ Meets test word descvec
    → (b ≡ true) ⊎ Meets test word (desc ∷ descvec)
or_later test word desc descvec (inl e) = inl e
or_later test word desc descvec (inr m) = inr (inr m)

filter_descs-skip :
    (test : Test) (word : Bytes) (desc : Desc) (descvec : List Desc) (m : MatchType) (b : Bool)
    → test word desc.cmd ≡ none
    → filter_descs test word (desc ∷ descvec) m b ≡ filter_descs test word descvec m b
unfolding filter_descs
filter_descs-skip test word desc descvec m b e = rw (e, filter_descs) refl

filter_descs-Meets :
    (test : Test) (word : Bytes) (descvec : List Desc) (m : MatchType) (b : Bool)
    → (filter_descs test word descvec m b).1 ≡ true
    → (b ≡ true) ⊎ Meets test word descvec
filter_descs-Meets test word [] m b h = inl (unfold filter_descs in h)
filter_descs-Meets test word (desc ∷ descvec) m b h = elim (Option-cases (test word desc.cmd)) [
  | inl e ↦ or_later test word desc descvec (
      filter_descs-Meets test word descvec m b
        (ap (λ p. p.1) (sym (filter_descs-skip test word desc descvec m b e)) ∙ h))
  | inr (t, e) ↦ inr (inl (λ n. cc))
]

-- What is left in a slot.
abbrev Left : (Element → Type 0) → Option Element → Type 0
Left P none = Unit {0}
Left P (some e) = P e

module _ (test : Test) (word : Bytes) (index : ℕ) where
  filter_slot-gone :
      (e : Element) (m : MatchType)
      → get_elem? e.strvec index ≡ none
      → (filter_slot test word index (some e) m).0 ≡ none
  unfolding filter_slot
  filter_slot-gone e m h = rw (h, filter_slot) refl

  filter_slot-there :
      (e : Element) (m : MatchType) (descvec : List Desc)
      → get_elem? e.strvec index ≡ some descvec
      → (filter_slot test word index (some e) m).0
        ≡ (if (filter_descs test word descvec m false).1 then some e else none)
  unfolding filter_slot
  filter_slot-there e m descvec h = rw (h, filter_slot) refl

  filter_slot-Left :
      (P : Element → Type 0) (e : Element) (m : MatchType)
      → P e
      → Left (λ f. P f × Takes test word index f) (filter_slot test word index (some e) m).0
  filter_slot-Left P e m p = elim (Option-cases (get_elem? e.strvec index)) [
    | inl gone ↦ rw (filter_slot-gone e m gone) tt
    | inr (descvec, there) ↦
        rw (filter_slot-there e m descvec there)
          (kept descvec there (Bool-cases (filter_descs test word descvec m false).1))
  ]
    where
      kept :
          (descvec : List Desc)
          → get_elem? e.strvec index ≡ some descvec
          → ((filter_descs test word descvec m false).1 ≡ true)
            ⊎ ((filter_descs test word descvec m false).1 ≡ false)
          → Left
              (λ f. P f × Takes test word index f)
              (if (filter_descs test word descvec m false).1 then some e else none)
      kept descvec there (inl b) = rw b (
        p,
        record {
          descvec = descvec;
          there = there;
          meets = elim (filter_descs-Meets test word descvec m false b) [ inl n ↦ cc | inr q ↦ q ];
        },
      )
      kept descvec there (inr b) = rw b tt

  filter_slot-none :
      (Q : Element → Type 0) (m : MatchType) → Left Q (filter_slot test word index none m).0
  unfolding filter_slot
  filter_slot-none Q m = tt

  AllSlots-cons :
      (Q : Element → Type 0) (o : Option Element) (v : Slots)
      → Left Q o
      → AllSlots Q v
      → AllSlots Q (o ∷ v)
  AllSlots-cons Q none v l h = h
  AllSlots-cons Q (some e) v l h = (l, h)

  -- What holds of all the commands in the slots holds of those that a filter leaves, and each of those
  -- has a word at the position that the typed word meets.
  pub filter_slots-AllSlots :
      (P : Element → Type 0) (v : Slots) (m : MatchType)
      → AllSlots P v
      → AllSlots (λ e. P e × Takes test word index e) (filter_slots test word index v m).0
  unfolding filter_slots
  filter_slots-AllSlots P [] m h = tt
  filter_slots-AllSlots P (none ∷ v) m h =
      AllSlots-cons (λ f. P f × Takes test word index f) (filter_slot test word index none m).0
        (filter_slots test word index v (filter_slot test word index none m).1).0
        (filter_slot-none (λ f. P f × Takes test word index f) m)
        (filter_slots-AllSlots P v (filter_slot test word index none m).1 h)
  filter_slots-AllSlots P (some e ∷ v) m h =
      AllSlots-cons (λ f. P f × Takes test word index f) (filter_slot test word index (some e) m).0
        (filter_slots test word index v (filter_slot test word index (some e) m).1).0
        (filter_slot-Left P e m h.0)
        (filter_slots-AllSlots P v (filter_slot test word index (some e) m).1 h.1)
