-- ===== src/Command/Execute/Treat.antt =====
-- The argument treatment of the executors, in a table in which a variable argument list stands alone.
use mksh.Prelude.{
  ℕ, zero, suc, ◌≤◌, ◌≡◌, ◌≢◌, sym, inl, inr, Bool, true, false, some, List, [], ◌∷◌, arith,
  get_elem?, length, Bool-cases, leb,
}
use mathlib.Core.Path.{subst}
use mksh.Cstr.{Bytes}
use mksh.Command.Element.{Desc, Element}
use mksh.Command.Filter.Vararg.{HasVararg}
use mksh.Command.Execute.{
  Arguments, exceeded, missing, takes_word, keep_word, treat_arguments, cmd_argc_max,
}

-- Every position with a variable argument list has no alternative to it.
abbrev pub AllLone : List (List Desc) → Type 0
AllLone [] = Unit {0}
AllLone (descvec ∷ strvec) =
    (HasVararg descvec → (desc : Desc) × (descvec ≡ desc ∷ [])) × AllLone strvec

abbrev pub Lone : Element → Type 0
Lone e = AllLone e.strvec

next-not-missing :
    (args : List Bytes) (rest : Arguments)
    → rest ≢ missing
    → (elim (leb cmd_argc_max (length args)) as (λ _. Arguments) [ true ↦ exceeded | false ↦ rest ])
      ≢ missing
next-not-missing args rest h = elim (Bool-cases (leb cmd_argc_max (length args))) [
  | inl b ↦ rw b (λ e. cc)
  | inr b ↦ rw b h
]

-- With the flag set, every word is an argument.
flagged-not-missing :
    (ws : List Bytes) (strvec : List (List Desc)) (args : List Bytes)
    → treat_arguments ws strvec true args ≢ missing
unfolding treat_arguments
flagged-not-missing [] strvec args = λ e. cc
flagged-not-missing (w ∷ ws) [] args =
    next-not-missing (keep_word true args w) (treat_arguments ws [] true (keep_word true args w))
      (flagged-not-missing ws [] (keep_word true args w))
flagged-not-missing (w ∷ ws) (d ∷ strvec) args =
    next-not-missing (keep_word true args w)
      (treat_arguments ws (d ∷ strvec) true (keep_word true args w))
      (flagged-not-missing ws (d ∷ strvec) (keep_word true args w))

either-not-missing :
    (ws : List Bytes) (strvec : List (List Desc)) (b : Bool) (args : List Bytes)
    → treat_arguments ws strvec false args ≢ missing
    → treat_arguments ws strvec b args ≢ missing
either-not-missing ws strvec true args h = flagged-not-missing ws strvec args
either-not-missing ws strvec false args h = h

-- Enough descriptions for the words.
pub enough-not-missing :
    (ws : List Bytes) (strvec : List (List Desc)) (args : List Bytes)
    → length ws ≤ length strvec
    → treat_arguments ws strvec false args ≢ missing
unfolding treat_arguments
enough-not-missing [] strvec args h = λ e. cc
enough-not-missing (w ∷ ws) [] args h = absurd (omega arith)
enough-not-missing (w ∷ ws) (d ∷ strvec) args h =
    let next : List Bytes = keep_word (takes_word d).0 args w in
    next-not-missing next (treat_arguments ws strvec (takes_word d).1 next) (
      either-not-missing ws strvec (takes_word d).1 next
        (enough-not-missing ws strvec next (omega arith)))

lone-flag : (desc : Desc) → HasVararg (desc ∷ []) → (takes_word (desc ∷ [])).1 ≡ true
unfolding takes_word
lone-flag desc (inl h) = h
lone-flag desc (inr h) = absurd h

lone-flagged :
    (d : List Desc) → HasVararg d → ((desc : Desc) × (d ≡ desc ∷ [])) → (takes_word d).1 ≡ true
lone-flagged d h (desc, e) = rw e (lone-flag desc (rw e at h))

-- A variable argument list on the way sets the flag.
pub vararg-not-missing :
    (ws : List Bytes) (strvec : List (List Desc)) (k : ℕ) (descvec : List Desc) (args : List Bytes)
    → AllLone strvec
    → get_elem? strvec k ≡ some descvec
    → HasVararg descvec
    → treat_arguments ws strvec false args ≢ missing
unfolding treat_arguments
vararg-not-missing [] strvec k descvec args l g h = λ e. cc
vararg-not-missing (w ∷ ws) [] k descvec args l g h = cc
vararg-not-missing (w ∷ ws) (d ∷ strvec) zero descvec args l g h =
    let next : List Bytes = keep_word (takes_word d).0 args w in
    let has : HasVararg d = subst HasVararg (sym (some-eq d descvec g)) h in
    next-not-missing next (treat_arguments ws strvec (takes_word d).1 next)
      (rw (lone-flagged d has (l.0 has)) (flagged-not-missing ws strvec next))
  where
    some-eq : (a b : List Desc) → some a ≡ some b → a ≡ b
    some-eq a b e = cc
vararg-not-missing (w ∷ ws) (d ∷ strvec) (suc k) descvec args l g h =
    let next : List Bytes = keep_word (takes_word d).0 args w in
    next-not-missing next (treat_arguments ws strvec (takes_word d).1 next) (
      either-not-missing ws strvec (takes_word d).1 next
        (vararg-not-missing ws strvec k descvec next l.1 g h))

-- The arguments of the command are found.
abbrev pub Treats : List Bytes → Element → Type 0
Treats ws e = treat_arguments ws e.strvec false [] ≢ missing
