-- ===== src/Command/Execute/Sound.antt =====
-- The command that the executors run.
use mksh.Prelude.{
  ℕ, suc, ◌+◌, ◌≤◌, ◌<◌, ◌≡◌, refl, ap, ◌∙◌, ◌⊎◌, inl, inr, Bool, true, false, Option, none, some,
  List, [], ◌∷◌, arith, if◌then◌else◌, get_elem?, take, length, Bool-cases, ltb, ◌==◌,
}
use mksh.Cstr.{Bytes}
use mksh.Match.{MatchType, no_match}
use mksh.Command.Element.{Element}
use mksh.Command.Filter.{
  Slots, Test, cmd_filter_by_completion, cmd_filter_by_string, by_completion, by_string,
}
use mksh.Command.Filter.Keeps.{AllSlots}
use mksh.Command.Filter.Vararg.{VarargAt, SomeSlot}
use mksh.Command.Execute.{
  err_ambiguous, Outcome, error, daemon, run, crash, Filter, Walked, left, done, walk_words,
  is_vararg, Counts, count_matches, enough_words, no_counts, Arguments, argv, exceeded, missing,
  treat_arguments, call, choose, finish, execute, cmd_execute_command, cmd_execute_command_strict,
  cmd_argc_max,
}
use mksh.Command.Execute.Walk.{
  SomeSlot-with, TakesAll, IsFilter, by_completion-IsFilter, by_string-IsFilter, Compared, WalksTo,
  walk_words-WalksTo,
}
use mksh.Command.Execute.Choice.{
  Found, Found-map, count_matches-Found, Fits, treat_arguments-Fits, Counted, count_matches-Counted,
}
use mksh.Command.Execute.Single.{count_matches-single}
use mksh.Command.Execute.Stops.{
  FindsVararg, by_completion-FindsVararg, by_string-FindsVararg, StopsAt, walk_words-StopsAt,
}

-- The command stands in the table, and its specification takes the first `n` of the words: all of
-- them, and the command needs no more, or those up to its variable argument list, which takes the
-- last of them.
pub record Accepted (test : Test) (v : Slots) (ws : List Bytes) (e : Element) : Type 0 where
  pub n : ℕ
  pub listed : (i : ℕ) × (get_elem? v i ≡ some (some e))
  pub takes : TakesAll test (take n ws) 0 e
  pub ended :
      ((n ≡ length ws) × (e.cmdsize ≤ length ws))
      ⊎ ((last : ℕ) × (n ≡ suc last) × (n ≤ length ws) × VarargAt last e)

-- What may be said of each outcome.
abbrev pub Justified : Test → Slots → List Bytes → Outcome → Type 0
Justified test v ws (error c) = Unit {0}
Justified test v ws (daemon e) = Accepted test v ws e
Justified test v ws (run e args) = Accepted test v ws e × (length args < cmd_argc_max)
Justified test v ws crash = (e : Element) × Accepted test v ws e

Listed-all :
    (u v : Slots) (k : ℕ)
    → ((i : ℕ) → get_elem? v (k + i) ≡ get_elem? u i)
    → AllSlots (λ e. (i : ℕ) × (get_elem? v i ≡ some (some e))) u
Listed-all [] v k h = tt
Listed-all (none ∷ u) v k h =
    Listed-all u v (k + 1) (λ i. ap (get_elem? v) (omega arith) ∙ h (suc i))
Listed-all (some e ∷ u) v k h =
    ((k + 0, h 0), Listed-all u v (k + 1) (λ i. ap (get_elem? v) (omega arith) ∙ h (suc i)))

abbrev Listed : Slots → Element → Type 0
Listed v e = (i : ℕ) × (get_elem? v i ≡ some (some e))

call-Justified :
    (test : Test) (v : Slots) (ws : List Bytes) (e : Element) (a : Arguments)
    → Accepted test v ws e
    → Fits a
    → Justified test v ws (call e a)
unfolding call
call-Justified test v ws e (argv args) acc f = pick e.daemon
  where
    pick : (b : Bool) → Justified test v ws (if b then daemon e else run e args)
    pick true = acc
    pick false = (acc, f)
call-Justified test v ws e exceeded acc f = tt
call-Justified test v ws e missing acc f = (e, acc)

module _ (test : Test) (v : Slots) (ws : List Bytes) where
  chosen :
      (o : Option Element)
      → Found (λ e. Accepted test v ws e) o
      → ((e : Element) × (o ≡ some e))
      → Justified test v ws (elim o as (λ _. Outcome) [
        | none ↦ crash
        | some e ↦ call e (treat_arguments ws e.strvec false [])
      ])
  chosen none f (e, h) = cc
  chosen (some e) f h =
      call-Justified test v ws e (treat_arguments ws e.strvec false []) f
        (treat_arguments-Fits ws e.strvec false [] (omega arith))

  choose-Justified :
      (n : Counts)
      → Counted n
      → (n.matched_count ≡ 1 → Found (λ e. Accepted test v ws e) n.matched_element)
      → Justified test v ws (choose ws n)
  unfolding choose
  choose-Justified n c f = elim (Bool-cases (n.matched_count == 0)) [
    | inl z ↦ simp z tt
    | inr nz ↦
        simp nz
          (single (ltb 1 n.matched_count) (remembered c nz) (λ few. f (one n.matched_count nz few)))
  ]
    where
      one : (k : ℕ) → (k == 0) ≡ false → ltb 1 k ≡ false → k ≡ 1
      one k nz few = ground arith

      remembered :
          Counted n → (n.matched_count == 0) ≡ false → (e : Element) × (n.matched_element ≡ some e)
      remembered (inl z) nz = absurd (grind (arith, z, nz))
      remembered (inr h) nz = h

      single :
          (b : Bool)
          → ((e : Element) × (n.matched_element ≡ some e))
          → (b ≡ false → Found (λ e. Accepted test v ws e) n.matched_element)
          → Justified test v ws (
              if b then error err_ambiguous else elim n.matched_element as (λ _. Outcome) [
                | none ↦ crash
                | some e ↦ call e (treat_arguments ws e.strvec false [])
              ])
      single true h g = tt
      single false h g = chosen n.matched_element (g refl) h

  module _ (k : ℕ) (u : Slots) (m : MatchType) (c : Compared test (Listed v) ws 0 k u m) where
    abbrev Kept : Element → Type 0
    Kept e = Listed v e × TakesAll test (take c.n ws) 0 e

    accept_whole :
        is_vararg m ≡ false
        → (e : Element) → Kept e × (enough_words m k e ≡ true)
        → Accepted test v ws e
    accept_whole fixed e ((l, t), enough) = record {
      n = c.n;
      listed = l;
      takes = t;
      ended = finished c.ended;
    }
      where
        size : k ≡ 0 + length ws → e.cmdsize ≤ length ws
        size q = unfold enough_words in ground arith

        finished :
            ((c.n ≡ length ws) × (k ≡ 0 + length ws) × (is_vararg m ≡ false))
              ⊎ ((is_vararg m ≡ true) × (0 < c.n) × (c.n ≤ length ws) × (0 + c.n ≡ suc k))
            → ((c.n ≡ length ws) × (e.cmdsize ≤ length ws))
              ⊎ ((last : ℕ) × (c.n ≡ suc last) × (c.n ≤ length ws) × VarargAt last e)
        finished (inl (p, q, r)) = inl (p, size q)
        finished (inr (va, p, q, r)) = cc

    accept_vararg :
        is_vararg m ≡ true → (e : Element) → Kept e × VarargAt k e → Accepted test v ws e
    accept_vararg va e ((l, t), g) = record {
      n = c.n;
      listed = l;
      takes = t;
      ended = finished c.ended;
    }
      where
        finished :
            ((c.n ≡ length ws) × (k ≡ 0 + length ws) × (is_vararg m ≡ false))
              ⊎ ((is_vararg m ≡ true) × (0 < c.n) × (c.n ≤ length ws) × (0 + c.n ≡ suc k))
            → ((c.n ≡ length ws) × (e.cmdsize ≤ length ws))
              ⊎ ((last : ℕ) × (c.n ≡ suc last) × (c.n ≤ length ws) × VarargAt last e)
        finished (inl (p, q, fixed)) = cc
        finished (inr (_, p, q, r)) = inr (k, omega arith, q, g)

    -- The one command that is counted is accepted; behind a variable argument list it is the one that
    -- has it.
    counted-Accepted :
        (is_vararg m ≡ true → SomeSlot (VarargAt k) u)
        → (count_matches u m k no_counts).matched_count ≡ 1
        → Found (λ e. Accepted test v ws e) (count_matches u m k no_counts).matched_element
    counted-Accepted s one = elim (Bool-cases (is_vararg m)) [
      | inl va ↦ Found-map (accept_vararg va) (count_matches u m k no_counts).matched_element (
          count_matches-single m k va (λ e. Kept e × VarargAt k e) u no_counts
            (SomeSlot-with Kept (VarargAt k) u c.all (s va)) refl one)
      | inr fixed ↦
          Found-map (accept_whole fixed) (count_matches u m k no_counts).matched_element
            (count_matches-Found Kept u m k no_counts c.all tt)
    ]

  finish-Justified :
      (r : Walked) → WalksTo test (Listed v) ws 0 r → StopsAt r → Justified test v ws (finish ws r)
  unfolding finish
  finish-Justified (left o) (c, h) s = rw h tt
  finish-Justified (done k u m) c s =
      choose-Justified (count_matches u m k no_counts)
        (count_matches-Counted u m k no_counts (inl refl)) (counted-Accepted k u m c s)

  execute-Justified :
      (filter : Filter)
      → IsFilter test filter
      → FindsVararg filter
      → Justified test v ws (execute filter ws v)
  unfolding execute
  execute-Justified filter F G =
      finish-Justified (walk_words filter ws 0 v no_match)
        (walk_words-WalksTo test filter F (Listed v) ws 0 v no_match (unfold is_vararg in refl)
          (Listed-all v v 0 (λ i. ap (get_elem? v) (omega arith))))
        (walk_words-StopsAt filter G ws 0 v no_match (unfold is_vararg in refl))

-- Whatever the words and the table, `cmd_execute_command` calls a handler, hands over to its
-- caller, or reads outside a vector only for a command of the table that takes the typed words by
-- completion: all of them, and then the command needs no more words than were typed, or the first ones
-- up to one at which the command itself has a variable argument list. A handler gets fewer than
-- CMD_ARGC_MAX arguments.
pub cmd_execute_command-Justified :
    (ws : List Bytes) (v : Slots) → Justified by_completion v ws (cmd_execute_command ws v)
unfolding cmd_execute_command
cmd_execute_command-Justified ws v =
    execute-Justified by_completion v ws cmd_filter_by_completion by_completion-IsFilter
      by_completion-FindsVararg

-- Whatever the words and the table, `cmd_execute_command_strict` calls a handler, hands over to its
-- caller, or reads outside a vector only for a command of the table that takes the typed words by
-- equality: all of them, and then the command needs no more words than were typed, or the first ones
-- up to one at which the command itself has a variable argument list. A handler gets fewer than
-- CMD_ARGC_MAX arguments.
pub cmd_execute_command_strict-Justified :
    (ws : List Bytes) (v : Slots) → Justified by_string v ws (cmd_execute_command_strict ws v)
unfolding cmd_execute_command_strict
cmd_execute_command_strict-Justified ws v =
    execute-Justified by_string v ws cmd_filter_by_string by_string-IsFilter by_string-FindsVararg
