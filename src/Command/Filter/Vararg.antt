-- ===== src/Command/Filter/Vararg.antt =====
-- The filters' answer `vararg_match`.
use mksh.Prelude.{
  ℕ, ◌≡◌, refl, sym, ap, ◌∙◌, ◌⊎◌, inl, inr, Bool, true, false, Option, none, some, List, [], ◌∷◌,
  if◌then◌else◌, get_elem?, Option-cases, arith,
}
use mksh.Cstr.{Bytes}
use mksh.Match.{MatchType, vararg_match, weaker}
use mksh.Command.Element.{Desc, Element, Form, form, cmd_vararg}
use mksh.Command.Element.{vararg, range, ipv6, ipv6_prefix, ipv4, ipv4_prefix, variable, literal}
use mksh.Command.Filter.{
  Slots, Test, raise, filter_descs, filter_slot, filter_slots, completes, equals, by_completion,
  by_string,
}

abbrev pub HasVararg : List Desc → Type 0
HasVararg [] = ⊥
HasVararg (desc ∷ descvec) = (cmd_vararg desc.cmd ≡ true) ⊎ HasVararg descvec

-- The command has a variable argument list at this position.
abbrev pub VarargAt : ℕ → Element → Type 0
VarargAt index e =
    (descvec : List Desc) × (get_elem? e.strvec index ≡ some descvec) × HasVararg descvec

-- Some command in the slots.
abbrev pub SomeSlot : (Element → Type 0) → Slots → Type 0
SomeSlot P [] = ⊥
SomeSlot P (none ∷ v) = SomeSlot P v
SomeSlot P (some e ∷ v) = P e ⊎ SomeSlot P v

-- Only a word with a leading dot is matched as a variable argument list.
abbrev pub IsDotted : Test → Type 0
IsDotted test = (word str : Bytes) → test word str ≡ some vararg_match → cmd_vararg str ≡ true

form-vararg : (str : Bytes) → form str ≡ vararg → cmd_vararg str ≡ true
unfolding form
form-vararg str h = ground arith

completes-vararg :
    (f : Form) (word str : Bytes) → completes f word str ≡ some vararg_match → f ≡ vararg
unfolding completes
completes-vararg vararg word str h = refl
completes-vararg range word str h = ground arith
completes-vararg ipv6 word str h = ground arith
completes-vararg ipv6_prefix word str h = ground arith
completes-vararg ipv4 word str h = ground arith
completes-vararg ipv4_prefix word str h = ground arith
completes-vararg variable word str h = cc
completes-vararg literal word str h = ground arith

equals-vararg : (f : Form) (word str : Bytes) → equals f word str ≡ some vararg_match → f ≡ vararg
unfolding equals
equals-vararg vararg word str h = refl
equals-vararg range word str h = ground arith
equals-vararg ipv6 word str h = ground arith
equals-vararg ipv6_prefix word str h = ground arith
equals-vararg ipv4 word str h = ground arith
equals-vararg ipv4_prefix word str h = ground arith
equals-vararg variable word str h = cc
equals-vararg literal word str h = ground arith

pub by_completion-IsDotted : IsDotted by_completion
unfolding by_completion
by_completion-IsDotted word str h = form-vararg str (completes-vararg (form str) word str h)

pub by_string-IsDotted : IsDotted by_string
unfolding by_string
by_string-IsDotted word str h = form-vararg str (equals-vararg (form str) word str h)

raise-either : (old new m : MatchType) → raise old new ≡ m → (old ≡ m) ⊎ (new ≡ m)
unfolding raise
raise-either old new m h = pick (weaker old new) h
  where
    pick : (b : Bool) → (if b then new else old) ≡ m → (old ≡ m) ⊎ (new ≡ m)
    pick true e = inr e
    pick false e = inl e

module _ (test : Test) (word : Bytes) where
  filter_descs-miss :
      (desc : Desc) (descvec : List Desc) (m : MatchType) (b : Bool)
      → test word desc.cmd ≡ none
      → filter_descs test word (desc ∷ descvec) m b ≡ filter_descs test word descvec m b
  unfolding filter_descs
  filter_descs-miss desc descvec m b e = rw (e, filter_descs) refl

  filter_descs-hit :
      (desc : Desc) (descvec : List Desc) (m t : MatchType) (b : Bool)
      → test word desc.cmd ≡ some t
      → filter_descs test word (desc ∷ descvec) m b
        ≡ filter_descs test word descvec (raise m t) true
  unfolding filter_descs
  filter_descs-hit desc descvec m t b e = rw (e, filter_descs) refl

  filter_descs-matched :
      (descvec : List Desc) (m : MatchType) → (filter_descs test word descvec m true).1 ≡ true
  filter_descs-matched [] m = unfold filter_descs in refl
  filter_descs-matched (desc ∷ descvec) m = elim (Option-cases (test word desc.cmd)) [
    | inl e ↦ rw (filter_descs-miss desc descvec m true e) (filter_descs-matched descvec m)
    | inr (t, e) ↦
        rw (filter_descs-hit desc descvec m t true e) (filter_descs-matched descvec (raise m t))
  ]

  module _ (dotted : IsDotted test) where
    filter_descs-HasVararg :
        (descvec : List Desc) (m : MatchType) (b : Bool)
        → (filter_descs test word descvec m b).0 ≡ vararg_match
        → (m ≡ vararg_match) ⊎ (HasVararg descvec × ((filter_descs test word descvec m b).1 ≡ true))
    filter_descs-HasVararg [] m b h = inl (unfold filter_descs in h)
    filter_descs-HasVararg (desc ∷ descvec) m b h = elim (Option-cases (test word desc.cmd)) [
      | inl e ↦ later (
          rw (filter_descs-miss desc descvec m b e) (
            filter_descs-HasVararg descvec m b
              (ap (λ p. p.0) (sym (filter_descs-miss desc descvec m b e)) ∙ h)))
      | inr (t, e) ↦ rw (filter_descs-hit desc descvec m t b e) (
          here t e (
            filter_descs-HasVararg descvec (raise m t) true
              (ap (λ p. p.0) (sym (filter_descs-hit desc descvec m t b e)) ∙ h)))
    ]
      where
        later :
            {T : Type 0}
            → (m ≡ vararg_match) ⊎ (HasVararg descvec × T)
            → (m ≡ vararg_match) ⊎ (HasVararg (desc ∷ descvec) × T)
        later (inl q) = inl q
        later (inr (q, r)) = inr (inr q, r)

        here :
            (t : MatchType)
            → test word desc.cmd ≡ some t
            → (raise m t ≡ vararg_match)
              ⊎ (HasVararg descvec × ((filter_descs test word descvec (raise m t) true).1 ≡ true))
            → (m ≡ vararg_match)
              ⊎ (HasVararg (desc ∷ descvec)
                  × ((filter_descs test word descvec (raise m t) true).1 ≡ true))
        here t e (inr q) = later (inr q)
        here t e (inl q) = elim (raise-either m t vararg_match q) [
          | inl old ↦ inl old
          | inr new ↦ inr (
            inl (dotted word desc.cmd (e ∙ ap some new)),
            filter_descs-matched descvec (raise m t),
          )
        ]

    module _ (index : ℕ) where
      filter_slot-VarargAt :
          (e : Element) (m : MatchType)
          → (filter_slot test word index (some e) m).1 ≡ vararg_match
          → (m ≡ vararg_match)
            ⊎ (VarargAt index e × ((filter_slot test word index (some e) m).0 ≡ some e))
      filter_slot-VarargAt e m h = elim (Option-cases (get_elem? e.strvec index)) [
        | inl gone ↦ inl (sym (ap (λ p. p.1) (filter_slot-gone gone)) ∙ h)
        | inr (descvec, there) ↦ rw (filter_slot-there descvec there) (
            kept descvec there (
              filter_descs-HasVararg descvec m false
                (sym (ap (λ p. p.1) (filter_slot-there descvec there)) ∙ h)))
      ]
        where
          filter_slot-gone :
              get_elem? e.strvec index ≡ none → filter_slot test word index (some e) m ≡ (none, m)
          filter_slot-gone gone = unfold filter_slot in rw (gone, filter_slot) refl

          filter_slot-there :
              (descvec : List Desc)
              → get_elem? e.strvec index ≡ some descvec
              → filter_slot test word index (some e) m ≡ (
                if (filter_descs test word descvec m false).1 then some e else none,
                (filter_descs test word descvec m false).0,
              )
          filter_slot-there descvec there = unfold filter_slot in rw (there, filter_slot) refl

          kept :
              (descvec : List Desc)
              → get_elem? e.strvec index ≡ some descvec
              → (m ≡ vararg_match)
                ⊎ (HasVararg descvec × ((filter_descs test word descvec m false).1 ≡ true))
              → (m ≡ vararg_match)
                ⊎ (VarargAt index e
                    × ((if (filter_descs test word descvec m false).1 then some e else none)
                        ≡ some e))
          kept descvec there (inl q) = inl q
          kept descvec there (inr (q, r)) = inr ((descvec, there, q), rw r refl)

      SomeSlot-here :
          (P : Element → Type 0) (o : Option Element) (e : Element) (v : Slots)
          → o ≡ some e
          → P e
          → SomeSlot P (o ∷ v)
      SomeSlot-here P o e v h p = rw h (inl p)

      SomeSlot-later :
          (P : Element → Type 0) (o : Option Element) (v : Slots)
          → SomeSlot P v
          → SomeSlot P (o ∷ v)
      SomeSlot-later P none v h = h
      SomeSlot-later P (some e) v h = inr h

      pub filter_slots-SomeSlot :
          (v : Slots) (m : MatchType)
          → (filter_slots test word index v m).1 ≡ vararg_match
          → (m ≡ vararg_match) ⊎ SomeSlot (VarargAt index) (filter_slots test word index v m).0
      unfolding filter_slots
      filter_slots-SomeSlot [] m h = inl h
      filter_slots-SomeSlot (none ∷ v) m h =
          elim (filter_slots-SomeSlot v (filter_slot test word index none m).1 h) [
            | inl q ↦ inl (unfold filter_slot in q)
            | inr q ↦ inr (
                SomeSlot-later (VarargAt index) (filter_slot test word index none m).0
                  (filter_slots test word index v (filter_slot test word index none m).1).0 q)
          ]
      filter_slots-SomeSlot (some e ∷ v) m h =
          elim (filter_slots-SomeSlot v (filter_slot test word index (some e) m).1 h) [
            | inr q ↦ inr (
                SomeSlot-later (VarargAt index) (filter_slot test word index (some e) m).0
                  (filter_slots test word index v (filter_slot test word index (some e) m).1).0 q)
            | inl q ↦ elim (filter_slot-VarargAt e m q) [
              | inl r ↦ inl r
              | inr (r, k) ↦ inr (
                  SomeSlot-here (VarargAt index) (filter_slot test word index (some e) m).0 e
                    (filter_slots test word index v (filter_slot test word index (some e) m).1).0 k
                    r)
            ]
          ]
