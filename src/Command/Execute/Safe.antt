-- ===== src/Command/Execute/Safe.antt =====
-- The slots that the executors read.
use mksh.Prelude.{
  ℕ, zero, suc, ◌+◌, ◌≤◌, ◌<◌, ◌≡◌, ◌≢◌, refl, ap, ◌∙◌, ◌⊎◌, inl, inr, Bool, true, false, Option,
  none, some, List, [], ◌∷◌, arith, if◌then◌else◌, get_elem?, take, length, Bool-cases, ltb, ◌==◌,
}
use mathlib.Core.Path.{subst}
use mksh.Cstr.{Bytes}
use mksh.Match.{MatchType, no_match}
use mksh.Command.Element.{Element}
use mksh.Command.Filter.{
  Slots, Test, by_completion, by_string, cmd_filter_by_completion, cmd_filter_by_string,
}
use mksh.Command.Filter.Keeps.{AllSlots}
use mksh.Command.Filter.Vararg.{VarargAt, SomeSlot}
use mksh.Command.Execute.{
  err_ambiguous, Outcome, error, daemon, run, crash, Filter, Walked, left, done, walk_words,
  is_vararg, Counts, count_matches, no_counts, Arguments, argv, exceeded, missing, treat_arguments,
  call, choose, finish, execute, cmd_execute_command, cmd_execute_command_strict,
}
use mksh.Command.Execute.Walk.{
  AllSlots-map, SomeSlot-with, TakesAll, IsFilter, by_completion-IsFilter, by_string-IsFilter,
  Compared, WalksTo, walk_words-WalksTo,
}
use mksh.Command.Execute.Choice.{
  Found, Found-map, count_matches-Found, Counted, count_matches-Counted,
}
use mksh.Command.Execute.Treat.{Lone, Treats, enough-not-missing, vararg-not-missing}
use mksh.Command.Execute.Single.{count_matches-single}
use mksh.Command.Execute.Stops.{
  FindsVararg, by_completion-FindsVararg, by_string-FindsVararg, StopsAt, walk_words-StopsAt,
}

take-length : (ws : List Bytes) → take (length ws) ws ≡ ws
take-length [] = refl
take-length (w ∷ ws) = ap (λ t. w ∷ t) (take-length ws)

get_elem?-length :
    {A : Type 0} (xs : List A) (i : ℕ) (x : A) → get_elem? xs i ≡ some x → suc i ≤ length xs
get_elem?-length [] i x h = cc
get_elem?-length (y ∷ xs) zero x h = omega arith
get_elem?-length (y ∷ xs) (suc i) x h = omega (arith, get_elem?-length xs i x h)

-- A specification that takes the words has a position for each of them.
TakesAll-length :
    (test : Test) (w : Bytes) (ws : List Bytes) (index : ℕ) (e : Element)
    → TakesAll test (w ∷ ws) index e
    → index + suc (length ws) ≤ length e.strvec
TakesAll-length test w [] index e t =
    omega (arith, get_elem?-length e.strvec index t.0.descvec t.0.there)
TakesAll-length test w (u ∷ ws) index e t =
    omega (arith, TakesAll-length test u ws (index + 1) e t.1)

TakesAll-Treats : (test : Test) (ws : List Bytes) (e : Element) → TakesAll test ws 0 e → Treats ws e
TakesAll-Treats test [] e t = enough-not-missing [] e.strvec [] (omega arith)
TakesAll-Treats test (w ∷ ws) e t =
    enough-not-missing (w ∷ ws) e.strvec [] (omega (arith, TakesAll-length test w ws 0 e t))

VarargAt-Treats : (ws : List Bytes) (k : ℕ) (e : Element) → Lone e × VarargAt k e → Treats ws e
VarargAt-Treats ws k e (l, (descvec, g, h)) = vararg-not-missing ws e.strvec k descvec [] l g h

call-not-crash : (e : Element) (a : Arguments) → a ≢ missing → call e a ≢ crash
unfolding call
call-not-crash e (argv args) h = pick e.daemon
  where
    pick : (b : Bool) → (if b then daemon e else run e args) ≢ crash
    pick true = λ q. cc
    pick false = λ q. cc
call-not-crash e exceeded h = λ q. cc
call-not-crash e missing h = absurd (h refl)

module _ (ws : List Bytes) where
  chosen :
      (o : Option Element)
      → Found (Treats ws) o
      → ((e : Element) × (o ≡ some e))
      → (elim o as (λ _. Outcome) [
        | none ↦ crash
        | some e ↦ call e (treat_arguments ws e.strvec false [])
      ])
        ≢ crash
  chosen none f (e, h) = cc
  chosen (some e) f h = call-not-crash e (treat_arguments ws e.strvec false []) f

  choose-not-crash :
      (n : Counts)
      → Counted n
      → (n.matched_count ≡ 1 → Found (Treats ws) n.matched_element)
      → choose ws n ≢ crash
  unfolding choose
  choose-not-crash n c f = elim (Bool-cases (n.matched_count == 0)) [
    | inl z ↦ simp z (λ q. cc)
    | inr nz ↦
        simp nz
          (single (ltb 1 n.matched_count) (remembered c nz) (λ few. f (one n.matched_count nz few)))
  ]
    where
      one : (k : ℕ) → (k == 0) ≡ false → ltb 1 k ≡ false → k ≡ 1
      one k nz few = ground arith

      remembered :
          Counted n → (n.matched_count == 0) ≡ false → (e : Element) × (n.matched_element ≡ some e)
      remembered (inl z) nz = absurd (grind (arith, z, nz))
      remembered (inr h) nz = h

      single :
          (b : Bool)
          → ((e : Element) × (n.matched_element ≡ some e))
          → (b ≡ false → Found (Treats ws) n.matched_element)
          → (if b then error err_ambiguous else elim n.matched_element as (λ _. Outcome) [
            | none ↦ crash
            | some e ↦ call e (treat_arguments ws e.strvec false [])
          ])
            ≢ crash
      single true h g = λ q. cc
      single false h g = chosen n.matched_element (g refl) h

module _ (test : Test) (ws : List Bytes) where
  treated :
      (k : ℕ) (u : Slots) (m : MatchType)
      → Compared test Lone ws 0 k u m
      → (is_vararg m ≡ true → SomeSlot (VarargAt k) u)
      → (count_matches u m k no_counts).matched_count ≡ 1
      → Found (Treats ws) (count_matches u m k no_counts).matched_element
  treated k u m c s one = elim (Bool-cases (is_vararg m)) [
    | inl va ↦ Found-map (VarargAt-Treats ws k) (count_matches u m k no_counts).matched_element (
        count_matches-single m k va (λ e. Lone e × VarargAt k e) u no_counts
          (SomeSlot-with Lone (VarargAt k) u (AllSlots-map (λ e t. t.0) u c.all) (s va)) refl one)
    | inr fixed ↦
        Found-map
          (λ e t.
            TakesAll-Treats test ws e
              (subst (λ xs. TakesAll test xs 0 e) (whole fixed c.ended) t.0))
          (count_matches u m k no_counts).matched_element
          (count_matches-Found (λ e. TakesAll test (take c.n ws) 0 e) u m k no_counts
            (AllSlots-map (λ e t. t.1) u c.all) tt)
  ]
    where
      whole :
          is_vararg m ≡ false
          → ((c.n ≡ length ws) × (k ≡ 0 + length ws) × (is_vararg m ≡ false))
            ⊎ ((is_vararg m ≡ true) × (0 < c.n) × (c.n ≤ length ws) × (0 + c.n ≡ suc k))
          → take c.n ws ≡ ws
      whole fixed (inl (p, q, r)) = ap (λ n. take n ws) p ∙ take-length ws
      whole fixed (inr (p, q, r, t)) = cc

  finish-not-crash : (r : Walked) → WalksTo test Lone ws 0 r → StopsAt r → finish ws r ≢ crash
  unfolding finish
  finish-not-crash (left o) (c, h) s = rw h (λ q. cc)
  finish-not-crash (done k u m) c s =
      choose-not-crash ws (count_matches u m k no_counts)
        (count_matches-Counted u m k no_counts (inl refl)) (treated k u m c s)

  execute-not-crash :
      (filter : Filter) (v : Slots)
      → IsFilter test filter
      → FindsVararg filter
      → AllSlots Lone v
      → execute filter ws v ≢ crash
  unfolding execute
  execute-not-crash filter v F G l =
      finish-not-crash (walk_words filter ws 0 v no_match)
        (walk_words-WalksTo test filter F Lone ws 0 v no_match (unfold is_vararg in refl) l)
        (walk_words-StopsAt filter G ws 0 v no_match (unfold is_vararg in refl))

-- On a table in whose commands a variable argument list has no alternatives beside it,
-- `cmd_execute_command` reads no slot outside a vector, whatever is typed.
pub cmd_execute_command-not-crash :
    (ws : List Bytes) (v : Slots) → AllSlots Lone v → cmd_execute_command ws v ≢ crash
unfolding cmd_execute_command
cmd_execute_command-not-crash ws v l =
    execute-not-crash by_completion ws cmd_filter_by_completion v by_completion-IsFilter
      by_completion-FindsVararg l

-- On a table in whose commands a variable argument list has no alternatives beside it,
-- `cmd_execute_command_strict` reads no slot outside a vector, whatever is typed.
pub cmd_execute_command_strict-not-crash :
    (ws : List Bytes) (v : Slots) → AllSlots Lone v → cmd_execute_command_strict ws v ≢ crash
unfolding cmd_execute_command_strict
cmd_execute_command_strict-not-crash ws v l =
    execute-not-crash by_string ws cmd_filter_by_string v by_string-IsFilter by_string-FindsVararg l
