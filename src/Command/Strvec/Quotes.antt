-- ===== src/Command/Strvec/Quotes.antt =====
-- What `cmd_make_strvec` does with the quotes of a line before it splits it.
use mksh.Prelude.{
  ℕ, ◌<◌, ◌^◌, ◌≡◌, ◌≢◌, refl, ap, ◌∙◌, ◌⊎◌, inl, inr, true, false, Option, none, some, [], ◌∷◌,
  ◌++◌, arith, ◌==◌, ==→eq, map, length, length-append, Bool-cases,
}
use mksh.Cstr.{Bytes, str_chr}
use mksh.Command.Strvec.{dash, unquote, cmd_make_strvec}
use mksh.Command.Strvec.Words.{line_words, Answer, skip-Answer}

abbrev pub NoQuote : Bytes → Type 0
NoQuote [] = Unit {0}
NoQuote (c ∷ s) = (c ≢ b'"') × NoQuote s

-- The same text with a dash in place of each blank.
abbrev pub Dashed : Bytes → Bytes → Type 0
Dashed [] [] = Unit {0}
Dashed [] (d ∷ t) = ⊥
Dashed (c ∷ s) [] = ⊥
Dashed (c ∷ s) (d ∷ t) = (((c ≡ b' ') × (d ≡ b'-')) ⊎ ((c ≢ b' ') × (d ≡ c))) × Dashed s t

-- The line `t` that is split where the line is `s`.
pub data Resolved (s t : Bytes) : Type 0 where
  unquoted : NoQuote s → t ≡ s → Resolved s t
  unpaired :
      (before after : Bytes)
      → NoQuote before
      → NoQuote after
      → s ≡ before ++ b'"' ∷ after
      → t ≡ s
      → Resolved s t
  -- Blanks stand for the first two quotes, and dashes for the blanks between them.
  paired :
      (before quoted dashed after : Bytes)
      → NoQuote before
      → NoQuote quoted
      → Dashed quoted dashed
      → s ≡ before ++ b'"' ∷ (quoted ++ b'"' ∷ after)
      → t ≡ before ++ b' ' ∷ (dashed ++ b' ' ∷ after)
      → Resolved s t

-- A search for the quote finds none, or the first one.
data FirstQuote (s : Bytes) : Option (Bytes × Bytes) → Type 0 where
  missing : NoQuote s → FirstQuote s none
  first :
      (before after : Bytes)
      → NoQuote before
      → s ≡ before ++ b'"' ∷ after
      → FirstQuote s (some (before, after))

abbrev behind : ℕ → Option (Bytes × Bytes) → Option (Bytes × Bytes)
behind d o = elim o [ none ↦ none | some (a, b) ↦ some (d ∷ a, b) ]

FirstQuote-next :
    (d : ℕ) (s : Bytes) (o : Option (Bytes × Bytes))
    → d ≢ b'"'
    → FirstQuote s o
    → FirstQuote (d ∷ s) (behind d o)
FirstQuote-next d s _ ne (missing clean) = missing (ne, clean)
FirstQuote-next d s _ ne (first before after clean q) =
    first (d ∷ before) after (ne, clean) (ap (λ t. d ∷ t) q)

str_chr-FirstQuote : (s : Bytes) → FirstQuote s (str_chr b'"' s)
unfolding str_chr
str_chr-FirstQuote [] = missing tt
str_chr-FirstQuote (d ∷ s) = elim (Bool-cases (d == b'"')) [
  | inl e ↦ rw e (first [] s tt (ap (λ x. x ∷ s) (==→eq d b'"' e)))
  | inr e ↦ rw e (FirstQuote-next d s (str_chr b'"' s) (λ q. other d q e) (str_chr-FirstQuote s))
]
  where
    other : (d : ℕ) → d ≡ b'"' → (d == b'"') ≡ false → ⊥
    other d q e = ground arith

map-Dashed : (s : Bytes) → Dashed s (map dash s)
map-Dashed [] = tt
map-Dashed (c ∷ s) = (dashed (Bool-cases (c == b' ')), map-Dashed s)
  where
    dashed :
        ((c == b' ') ≡ true) ⊎ ((c == b' ') ≡ false)
        → ((c ≡ b' ') × (dash c ≡ b'-')) ⊎ ((c ≢ b' ') × (dash c ≡ c))
    dashed (inl e) = inl (==→eq c b' ' e, rw e refl)
    dashed (inr e) = inr (λ q. absurd (ground (arith, q, e)), rw e refl)

abbrev resolve_pair : Bytes → Bytes → Option (Bytes × Bytes) → Bytes
resolve_pair string before o = elim o [
  | none ↦ string
  | some (quoted, after) ↦ before ++ b' ' ∷ (map dash quoted ++ b' ' ∷ after)
]

resolve_pair-Resolved :
    (s before rest : Bytes) (o : Option (Bytes × Bytes))
    → NoQuote before
    → s ≡ before ++ b'"' ∷ rest
    → FirstQuote rest o
    → Resolved s (resolve_pair s before o)
resolve_pair-Resolved s before rest _ b e (missing clean) = unpaired before rest b clean e refl
resolve_pair-Resolved s before rest _ b e (first quoted after clean q) =
    paired before quoted (map dash quoted) after b clean (map-Dashed quoted)
      (e ∙ ap (λ t. before ++ b'"' ∷ t) q) refl

abbrev resolve : Bytes → Option (Bytes × Bytes) → Bytes
resolve string o = elim o [
  | none ↦ string
  | some (before, rest) ↦ resolve_pair string before (str_chr b'"' rest)
]

resolve-Resolved :
    (s : Bytes) (o : Option (Bytes × Bytes)) → FirstQuote s o → Resolved s (resolve s o)
resolve-Resolved s _ (missing clean) = unquoted clean refl
resolve-Resolved s _ (first before after clean q) =
    resolve_pair-Resolved s before after (str_chr b'"' after) clean q (str_chr-FirstQuote after)

unquote-Resolved : (s : Bytes) → Resolved s (unquote s)
unfolding unquote
unquote-Resolved s = resolve-Resolved s (str_chr b'"' s) (str_chr-FirstQuote s)

Dashed-length : (s t : Bytes) → Dashed s t → length t ≡ length s
Dashed-length [] [] h = refl
Dashed-length [] (d ∷ t) h = absurd h
Dashed-length (c ∷ s) [] h = absurd h
Dashed-length (c ∷ s) (d ∷ t) h = omega (arith, Dashed-length s t h.1)

Resolved-length : (s t : Bytes) → Resolved s t → length t ≡ length s
Resolved-length s t (unquoted clean e) = ap length e
Resolved-length s t (unpaired before after b c q e) = ap length e
Resolved-length s t (paired before quoted dashed after b c d q e) = omega (
  arith,
  ap length q,
  ap length e,
  Dashed-length quoted dashed d,
  length-append before (b'"' ∷ (quoted ++ b'"' ∷ after)),
  length-append before (b' ' ∷ (dashed ++ b' ' ∷ after)),
  length-append quoted (b'"' ∷ after),
  length-append dashed (b' ' ∷ after),
)

-- For a line shorter than 2 ^ 30, `cmd_make_strvec` returns what the words of a line `t` say: NULL if
-- `t` is blank or its first word starts with `!` or `#`, and otherwise a vector that holds exactly the
-- words of `t`. Where the line has two quotes or more, `t` has blanks in place of the first two and
-- dashes in place of the blanks between them; where it has fewer, `t` is the line.
pub cmd_make_strvec-Answer :
    (s : Bytes)
    → length s < 2 ^ 30
    → (t : Bytes) × Resolved s t × Answer (line_words t) (cmd_make_strvec (some s))
unfolding cmd_make_strvec
cmd_make_strvec-Answer s h =
    let r : Resolved s (unquote s) = unquote-Resolved s in
    (unquote s, r, skip-Answer (unquote s) (omega (arith, Resolved-length s (unquote s) r)))
