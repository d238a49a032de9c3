-- ===== src/Command/Complete/Answers.antt =====
-- The strings that `cmd_complete_command` gives.
use mksh.Prelude.{
  ℕ, zero, suc, ◌≤◌, ◌≡◌, ◌≢◌, refl, sym, ◌∙◌, inl, inr, Bool, true, false, not, Option, none, some,
  List, [], ◌∷◌, ◌++◌, arith, ltb, ltb→lt, if◌then◌else◌, get_elem?, length, take, Bool-cases,
}
use mksh.Cstr.{Bytes, str_eq-ne, str_eq, is_prefix}
use mksh.Command.Element.{Desc, Element}
use mksh.Command.Filter.{Slots}
use mksh.Command.Complete.{
  offered, cmd_entry_function, cmd_unique_string, cmd_lcd, Narrowed, stopped, crashed, narrowed,
  narrow, add_match, collect_descs, collect_slot, collect, Completion, first_chars, list_answer,
  answer, complete_narrowed, cmd_complete_command,
}

-- The string starts with what was typed.
abbrev pub Extends : Option Bytes → Bytes → Type 0
Extends none m = Unit {0}
Extends (some typed) m = is_prefix typed m ≡ true

abbrev pub AllExtend : Option Bytes → List Bytes → Type 0
AllExtend current [] = Unit {0}
AllExtend current (m ∷ matchvec) = Extends current m × AllExtend current matchvec

-- The text is none of these.
abbrev pub Absent : Bytes → List Bytes → Type 0
Absent m [] = Unit {0}
Absent m (k ∷ matchvec) = (m ≢ k) × Absent m matchvec

-- No two of the texts are equal.
abbrev pub Distinct : List Bytes → Type 0
Distinct [] = Unit {0}
Distinct (m ∷ matchvec) = Absent m matchvec × Distinct matchvec

pub record Answers (current : Option Bytes) (strings : List Bytes) : Type 0 where
  pub extends : AllExtend current strings
  pub distinct : Distinct strings

is_prefix-take :
    (s m : Bytes) (n : ℕ) → is_prefix s m ≡ true → length s ≤ n → is_prefix s (take n m) ≡ true
unfolding is_prefix
is_prefix-take [] m n h le = refl
is_prefix-take (c ∷ s) [] n h le = cc
is_prefix-take (c ∷ s) (d ∷ m) zero h le = absurd (omega arith)
is_prefix-take (c ∷ s) (d ∷ m) (suc n) h le = ground (arith, is_prefix-take s m n)

-- Where the loop of `cmd_unique_string` finds no slot of this text, none has it.
cmd_unique_string-Absent : (v : List Bytes) (m : Bytes) → cmd_unique_string v m ≡ true → Absent m v
unfolding cmd_unique_string
cmd_unique_string-Absent [] m h = tt
cmd_unique_string-Absent (k ∷ v) m h = elim (Bool-cases (str_eq k m)) [
  | inl e ↦ let g : cmd_unique_string (k ∷ v) m ≡ false = rw e refl in cc
  | inr ne ↦
      let g : cmd_unique_string (k ∷ v) m ≡ cmd_unique_string v m = rw ne refl in
      (λ p. str_eq-ne k m ne (sym p), cmd_unique_string-Absent v m (sym g ∙ h))
]

module _ (string : Bytes) where
  Absent-concat :
      (v : List Bytes) (m : Bytes) → Absent m v → m ≢ string → Absent m (v ++ string ∷ [])
  Absent-concat [] m h ne = (ne, tt)
  Absent-concat (k ∷ v) m h ne = (h.0, Absent-concat v m h.1 ne)

  Distinct-concat : (v : List Bytes) → Distinct v → Absent string v → Distinct (v ++ string ∷ [])
  Distinct-concat [] d u = (tt, tt)
  Distinct-concat (m ∷ v) d u =
      (Absent-concat v m d.0 (λ e. u.0 (sym e)), Distinct-concat v d.1 u.1)

AllExtend-concat :
    (current : Option Bytes) (v : List Bytes) (string : Bytes)
    → AllExtend current v
    → Extends current string
    → AllExtend current (v ++ string ∷ [])
AllExtend-concat current [] string a e = (e, tt)
AllExtend-concat current (m ∷ v) string a e = (a.0, AllExtend-concat current v string a.1 e)

-- A string that a word offers extends what was typed.
abbrev Offer : Option Bytes → Option Bytes → Type 0
Offer current none = Unit {0}
Offer current (some string) = Extends current string

Offer-if : (s dst : Bytes) → Offer (some s) (if is_prefix s dst then some dst else none)
Offer-if s dst = pick (is_prefix s dst) refl
  where
    pick : (b : Bool) → is_prefix s dst ≡ b → Offer (some s) (if b then some dst else none)
    pick true e = e
    pick false e = tt

Offer-unless :
    (current : Option Bytes) (b : Bool) (o : Option Bytes)
    → Offer current o
    → Offer current (if b then none else o)
Offer-unless current true o h = tt
Offer-unless current false o h = h

cmd_entry_function-Offer :
    (current : Option Bytes) (dst : Bytes) → Offer current (cmd_entry_function current dst)
unfolding cmd_entry_function
cmd_entry_function-Offer none dst = Offer-unless none (not (offered dst)) (some dst) tt
cmd_entry_function-Offer (some s) dst =
    Offer-unless (some s) (not (offered dst)) (if is_prefix s dst then some dst else none)
      (Offer-if s dst)

module _ (current : Option Bytes) where
  add_match-Answers :
      (v : List Bytes) (o : Option Bytes)
      → Answers current v
      → Offer current o
      → Answers current (add_match v o)
  unfolding add_match
  add_match-Answers v none a h = a
  add_match-Answers v (some string) a h = pick (cmd_unique_string v string) refl
    where
      pick :
          (b : Bool)
          → cmd_unique_string v string ≡ b
          → Answers current (if b then v ++ string ∷ [] else v)
      pick true e = record {
        extends = AllExtend-concat current v string a.extends h;
        distinct = Distinct-concat string v a.distinct (cmd_unique_string-Absent v string e);
      }
      pick false e = a

  collect_descs-Answers :
      (descvec : List Desc) (v : List Bytes)
      → Answers current v
      → Answers current (collect_descs current descvec v)
  unfolding collect_descs
  collect_descs-Answers [] v a = a
  collect_descs-Answers (desc ∷ descvec) v a =
      collect_descs-Answers descvec (add_match v (cmd_entry_function current desc.cmd)) (
        add_match-Answers v (cmd_entry_function current desc.cmd) a
          (cmd_entry_function-Offer current desc.cmd))

  collect_slot-Answers :
      (index : ℕ) (slot : Option Element) (v : List Bytes)
      → Answers current v
      → Answers current (collect_slot current index slot v)
  unfolding collect_slot
  collect_slot-Answers index none v a = a
  collect_slot-Answers index (some e) v a = pick (get_elem? e.strvec index)
    where
      pick :
          (o : Option (List Desc))
          → Answers current (elim o [ none ↦ v | some descvec ↦ collect_descs current descvec v ])
      pick none = a
      pick (some descvec) = collect_descs-Answers descvec v a

  collect-Answers :
      (index : ℕ) (slots : Slots) (v : List Bytes)
      → Answers current v
      → Answers current (collect current index slots v)
  unfolding collect
  collect-Answers index [] v a = a
  collect-Answers index (slot ∷ slots) v a =
      collect-Answers index slots (collect_slot current index slot v)
        (collect_slot-Answers index slot v a)

one-Answers : (current : Option Bytes) (m : Bytes) → Extends current m → Answers current (m ∷ [])
one-Answers current m e = record { extends = (e, tt); distinct = (tt, tt) }

list_answer-Answers :
    (current : Option Bytes) (m : Bytes) (v : List Bytes)
    → Answers current (m ∷ v)
    → Answers current (list_answer current (m ∷ v)).strings
unfolding list_answer first_chars
list_answer-Answers none m v a = a
list_answer-Answers (some typed) m v a = elim (Bool-cases (ltb (length typed) n)) [
  | inl lt ↦ rw lt (
      one-Answers (some typed) (take n m)
        (is_prefix-take typed m n a.extends.0 (omega (arith, ltb→lt (length typed) n lt))))
  | inr ge ↦ rw ge a
]
  where
    n : ℕ
    n = cmd_lcd (m ∷ v)

answer-Answers :
    (current : Option Bytes) (v : List Bytes)
    → Answers current v
    → Answers current (answer current v).strings
unfolding answer
answer-Answers current [] a = a
answer-Answers current (m ∷ []) a = a
answer-Answers current (m ∷ k ∷ v) a = list_answer-Answers current m (k ∷ v) a

-- What holds of the answer, where there is one.
abbrev pub Answered : Option Bytes → Option Completion → Type 0
Answered current none = Unit {0}
Answered current (some completion) = Answers current completion.strings

no-Answers : (current : Option Bytes) → Answers current []
no-Answers current = record { extends = tt; distinct = tt }

narrowed-Answered :
    (current : Option Bytes) (index : ℕ) (r : Narrowed)
    → Answered current (complete_narrowed current index r)
unfolding complete_narrowed
narrowed-Answered current index (stopped s) = no-Answers current
narrowed-Answered current index crashed = tt
narrowed-Answered current index (narrowed v) =
    answer-Answers current (collect current index v [])
      (collect-Answers current index v [] (no-Answers current))

-- If `cmd_complete_command` reads no slot outside a vector, every string it gives extends the word
-- that was typed, if one was, and no string is given twice.
pub cmd_complete_command-Answers :
    (words : List Bytes) (current : Option Bytes) (v : Slots)
    → Answered current (cmd_complete_command words current v)
unfolding cmd_complete_command
cmd_complete_command-Answers words current v =
    narrowed-Answered current (length words) (narrow words 0 v)
