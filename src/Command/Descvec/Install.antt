-- ===== src/Command/Descvec/Install.antt =====
-- The installation of a command, and the number of words it needs.
use mksh.Prelude.{ℕ, suc, ◌≡◌, true, Option, none, some, List, [], ◌∷◌, ◌++◌}
use mksh.Command.Element.{Desc, Element, cmd_option}
use mksh.Command.Descvec.{parsed, parse_error, cmd_make_descvec}

-- The position holds one word alone, in brackets.
abbrev pub Optional : List Desc → Type 0
Optional descvec = (desc : Desc) × (descvec ≡ desc ∷ []) × (cmd_option desc.cmd ≡ true)

-- `n` positions are needed: none of them is optional, and the next one is optional or is not there.
pub data Needs : ℕ → List (List Desc) → Type 0 where
  ended : Needs 0 []
  optional :
      {descvec : List Desc} {strvec : List (List Desc)}
      → Optional descvec
      → Needs 0 (descvec ∷ strvec)
  needed :
      {n : ℕ} {descvec : List Desc} {strvec : List (List Desc)}
      → ¬ Optional descvec
      → Needs n strvec
      → Needs (suc n) (descvec ∷ strvec)

-- What an installation does.
abbrev pub Installed : Option (List Element) → Element → Option (List Element) → Type 0
Installed none cmd r = r ≡ none
Installed (some cmd_vector) cmd none = cmd_make_descvec cmd.string (some cmd.doc) ≡ parse_error
Installed (some cmd_vector) cmd (some v) =
    (e : Element) × (v ≡ cmd_vector ++ e ∷ [])
    × (e.string ≡ cmd.string)
    × (cmd_make_descvec cmd.string (some cmd.doc) ≡ parsed e.strvec)
    × Needs e.cmdsize e.strvec
