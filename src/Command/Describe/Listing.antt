-- ===== src/Command/Describe/Listing.antt =====
-- The descriptions that `cmd_describe_command` collects for the current word.
use mksh.Prelude.{
  ℕ, ◌≡◌, ◌≢◌, refl, sym, ap, ◌∙◌, inl, inr, ◌⊎◌, Bool, true, false, Option, none, some, List, [],
  ◌∷◌, ◌++◌, arith, ◌==◌, if◌then◌else◌, get_elem?, length, Bool-cases, Option-cases, is_some,
}
use mksh.Cstr.{Bytes, str_eq, str_eq-ne, is_prefix, is_prefix-rest}
use mksh.Match.{MatchType, no_match, matches}
use mksh.Match.Ipv4.{cmd_ipv4_match, cmd_ipv4_prefix_match}
use mksh.Match.Ipv6.{cmd_ipv6_match}
use mksh.Match.Ipv6Prefix.{cmd_ipv6_prefix_match}
use mksh.Match.Range.{cmd_range_match}
use mksh.Command.Element.{Desc, Element, Form, form}
use mksh.Command.Element.{vararg, range, ipv6, ipv6_prefix, ipv4, ipv4_prefix, variable, literal}
use mksh.Command.Filter.{Slots}
use mksh.Command.Complete.{describes, cmd_entry_function_desc, desc_unique_string}
use mksh.Command.Describe.{desc_cr, add_unique, describe_descs, describe_element, describe_slots}

-- A word of a specification can stand for what was typed: a keyword that starts with it, a range that
-- it lies in, an address that it is or may become; a variable and a variable argument list for all.
abbrev pub Fits : Form → Bytes → Bytes → Type 0
Fits vararg s dst = Unit {0}
Fits range s dst = cmd_range_match dst (some s) ≡ true
Fits ipv6 s dst = cmd_ipv6_match (some s) ≢ no_match
Fits ipv6_prefix s dst = cmd_ipv6_prefix_match (some s) ≢ no_match
Fits ipv4 s dst = cmd_ipv4_match (some s) ≢ no_match
Fits ipv4_prefix s dst = cmd_ipv4_prefix_match (some s) ≢ no_match
Fits variable s dst = Unit {0}
Fits literal s dst = (rest : Bytes) × (dst ≡ s ++ rest)

-- Every word can stand behind a blank, where nothing was typed.
abbrev pub Stands : Option Bytes → Bytes → Type 0
Stands none dst = Unit {0}
Stands (some s) dst = Fits (form dst) s dst

-- A description of the end of the command, or of a word that can stand for what was typed.
abbrev pub Shown : Option Bytes → Desc → Type 0
Shown current desc = (desc ≡ desc_cr) ⊎ Stands current desc.cmd

abbrev pub AllShown : Option Bytes → List Desc → Type 0
AllShown current [] = Unit {0}
AllShown current (desc ∷ descs) = Shown current desc × AllShown current descs

-- None of the descriptions is of the text.
abbrev pub Undescribed : Bytes → List Desc → Type 0
Undescribed string [] = Unit {0}
Undescribed string (desc ∷ descs) = (string ≢ desc.cmd) × Undescribed string descs

-- No two of the descriptions are of the same text.
abbrev pub DistinctDescs : List Desc → Type 0
DistinctDescs [] = Unit {0}
DistinctDescs (desc ∷ descs) = Undescribed desc.cmd descs × DistinctDescs descs

pub record Listing (current : Option Bytes) (descs : List Desc) : Type 0 where
  pub shown : AllShown current descs
  pub distinct : DistinctDescs descs

-- Where the loop of `desc_unique_string` finds no slot of this text, none has it.
desc_unique_string-Undescribed :
    (v : List Desc) (string : Bytes) → desc_unique_string v string ≡ false → Undescribed string v
unfolding desc_unique_string
desc_unique_string-Undescribed [] string h = tt
desc_unique_string-Undescribed (k ∷ v) string h = elim (Bool-cases (str_eq k.cmd string)) [
  | inl e ↦ let g : desc_unique_string (k ∷ v) string ≡ true = rw e refl in cc
  | inr ne ↦
      let g : desc_unique_string (k ∷ v) string ≡ desc_unique_string v string = rw ne refl in
      (λ p. str_eq-ne k.cmd string ne (sym p), desc_unique_string-Undescribed v string (sym g ∙ h))
]

module _ (desc : Desc) where
  Undescribed-concat :
      (v : List Desc) (string : Bytes)
      → Undescribed string v
      → string ≢ desc.cmd
      → Undescribed string (v ++ desc ∷ [])
  Undescribed-concat [] string h ne = (ne, tt)
  Undescribed-concat (k ∷ v) string h ne = (h.0, Undescribed-concat v string h.1 ne)

  DistinctDescs-concat :
      (v : List Desc) → DistinctDescs v → Undescribed desc.cmd v → DistinctDescs (v ++ desc ∷ [])
  DistinctDescs-concat [] d u = (tt, tt)
  DistinctDescs-concat (k ∷ v) d u =
      (Undescribed-concat v k.cmd d.0 (λ e. u.0 (sym e)), DistinctDescs-concat v d.1 u.1)

AllShown-concat :
    (current : Option Bytes) (v : List Desc) (desc : Desc)
    → AllShown current v
    → Shown current desc
    → AllShown current (v ++ desc ∷ [])
AllShown-concat current [] desc a e = (e, tt)
AllShown-concat current (k ∷ v) desc a e = (a.0, AllShown-concat current v desc a.1 e)

-- A word is shown under its own text.
describes-same :
    (f : Form) (src : Option Bytes) (dst string : Bytes)
    → describes f src dst ≡ some string
    → string ≡ dst
unfolding describes
describes-same vararg src dst string h = cc
describes-same range src dst string h = ground arith
describes-same ipv6 src dst string h = ground arith
describes-same ipv6_prefix src dst string h = ground arith
describes-same ipv4 src dst string h = ground arith
describes-same ipv4_prefix src dst string h = ground arith
describes-same variable src dst string h = cc
describes-same literal none dst string h = cc
describes-same literal (some s) dst string h = ground arith

cmd_entry_function_desc-same :
    (src : Option Bytes) (dst string : Bytes)
    → cmd_entry_function_desc src dst ≡ some string
    → string ≡ dst
unfolding cmd_entry_function_desc
cmd_entry_function_desc-same src dst string h = describes-same (form dst) src dst string h

matches-ne : (m : MatchType) → matches m ≡ true → m ≢ no_match
unfolding matches
matches-ne m h e = let g : matches m ≡ false = ap matches e in cc

-- Where a word is not passed over, its form says what it can stand for.
shown-true :
    (b : Bool) (dst string : Bytes) → (if b then some dst else none) ≡ some string → b ≡ true
shown-true true dst string h = refl
shown-true false dst string h = cc

describes-Fits :
    (f : Form) (s dst string : Bytes) → describes f (some s) dst ≡ some string → Fits f s dst
unfolding describes
describes-Fits vararg s dst string h = tt
describes-Fits range s dst string h = shown-true (cmd_range_match dst (some s)) dst string h
describes-Fits ipv6 s dst string h =
    matches-ne (cmd_ipv6_match (some s))
      (shown-true (matches (cmd_ipv6_match (some s))) dst string h)
describes-Fits ipv6_prefix s dst string h =
    matches-ne (cmd_ipv6_prefix_match (some s))
      (shown-true (matches (cmd_ipv6_prefix_match (some s))) dst string h)
describes-Fits ipv4 s dst string h =
    matches-ne (cmd_ipv4_match (some s))
      (shown-true (matches (cmd_ipv4_match (some s))) dst string h)
describes-Fits ipv4_prefix s dst string h =
    matches-ne (cmd_ipv4_prefix_match (some s))
      (shown-true (matches (cmd_ipv4_prefix_match (some s))) dst string h)
describes-Fits variable s dst string h = tt
describes-Fits literal s dst string h =
    is_prefix-rest s dst (shown-true (is_prefix s dst) dst string h)

cmd_entry_function_desc-Stands :
    (src : Option Bytes) (dst string : Bytes)
    → cmd_entry_function_desc src dst ≡ some string
    → Stands src dst
unfolding cmd_entry_function_desc
cmd_entry_function_desc-Stands none dst string h = tt
cmd_entry_function_desc-Stands (some s) dst string h = describes-Fits (form dst) s dst string h

module _ (current : Option Bytes) where
  add_unique-Listing :
      (v : List Desc) (desc : Desc)
      → Listing current v
      → Shown current desc
      → Listing current (add_unique v desc.cmd desc)
  unfolding add_unique
  add_unique-Listing v desc a s = elim (Bool-cases (desc_unique_string v desc.cmd)) [
    | inl there ↦ rw there a
    | inr new ↦ rw new (record {
      shown = AllShown-concat current v desc a.shown s;
      distinct =
          DistinctDescs-concat desc v a.distinct (desc_unique_string-Undescribed v desc.cmd new);
    })
  ]

  describe_descs-Listing :
      (descvec v : List Desc)
      → Listing current v
      → Listing current (describe_descs current descvec v)
  unfolding describe_descs
  describe_descs-Listing [] v a = a
  describe_descs-Listing (desc ∷ descvec) v a =
      elim (Option-cases (cmd_entry_function_desc current desc.cmd)) [
        | inl e ↦ rw e (describe_descs-Listing descvec v a)
        | inr (string, e) ↦
            let same = cmd_entry_function_desc-same current desc.cmd string e in
            rw (e, same)
              (describe_descs-Listing descvec (add_unique v desc.cmd desc) (
                add_unique-Listing v desc a
                  (inr (cmd_entry_function_desc-Stands current desc.cmd string e))))
      ]

  abbrev pub Listed : Option (List Desc) → Type 0
  Listed none = Unit {0}
  Listed (some descs) = Listing current descs

  describe_element-Listed :
      (index : ℕ) (e : Element) (v : List Desc)
      → Listing current v
      → Listed (describe_element current index e v)
  unfolding describe_element
  describe_element-Listed index e v a = pick (get_elem? e.strvec index)
    where
      beyond :
          (b end : Bool)
          → Listed
              (if b then some v else if end then some (add_unique v desc_cr.cmd desc_cr) else none)
      beyond true end = a
      beyond false true = add_unique-Listing v desc_cr a (inl refl)
      beyond false false = tt

      pick :
          (o : Option (List Desc))
          → Listed (elim o [
            | some descvec ↦ some (describe_descs current descvec v)
            | none ↦
                if is_some current
                then some v
                else if index == length e.strvec
                then some (add_unique v desc_cr.cmd desc_cr)
                else none
          ])
      pick (some descvec) = describe_descs-Listing descvec v a
      pick none = beyond (is_some current) (index == length e.strvec)

  pub describe_slots-Listed :
      (index : ℕ) (slots : Slots) (v : List Desc)
      → Listing current v
      → Listed (describe_slots current index slots v)
  unfolding describe_slots
  describe_slots-Listed index [] v a = a
  describe_slots-Listed index (none ∷ slots) v a = describe_slots-Listed index slots v a
  describe_slots-Listed index (some e ∷ slots) v a =
      pick (describe_element current index e v) (describe_element-Listed index e v a)
        (λ descs h. describe_slots-Listed index slots descs h)
    where
      pick :
          (o : Option (List Desc))
          → Listed o
          → ((descs : List Desc)
              → Listing current descs
              → Listed (describe_slots current index slots descs))
          → Listed (elim o [ none ↦ none | some descs ↦ describe_slots current index slots descs ])
      pick none h rest = tt
      pick (some descs) h rest = rest descs h
