-- ===== src/VtyshConfig/Sections.antt =====
-- vtysh_config.c: `config_get` makes sure that a section is there.
use mksh.Prelude.{
  ℕ, ◌<◌, ◌^◌, ◌≡◌, ◌≢◌, refl, sym, ap, ◌∙◌, inl, inr, true, false, Option, none, some, List, [],
  ◌∷◌, ◌++◌, ne→==, ==_refl, leb, leb→le, set, arith, Bool-cases, Option-cases, ◌>>=◌,
}
use mksh.Cstr.{Bytes, str_eq, str_eq→eq, str_eq-ne}
use mksh.Vector.{Vector, IsVector, store, vector_lookup}
use mksh.Vector.Ensure.{Grows-refl}
use mksh.Vector.View.{
  Written, store-Written, vector_set_index_lem, vector_lookup_ensure_lem, vector_lookup-null,
}
use mksh.VtyshConfig.{
  Config, str_lt, listnode_add, config_cmp, config_master, find_config, config_get,
}

-- No section has the name.
abbrev pub NoSection : Bytes → List Config → Type 0
NoSection line [] = Unit {0}
NoSection line (c ∷ master) = (c.name ≢ line) × NoSection line master

-- No section has a name behind this one in the order of `strcmp`.
abbrev pub NoneBehind : Bytes → List Config → Type 0
NoneBehind line [] = Unit {0}
NoneBehind line (c ∷ master) = (str_lt line c.name ≡ false) × NoneBehind line master

abbrev pub StartsBehind : Bytes → List Config → Type 0
StartsBehind line [] = Unit {0}
StartsBehind line (c ∷ master) = str_lt line c.name ≡ true

-- What the call makes of the sections `old`: the list behind it, and the section it answers.
pub data Sectioned (line : Bytes) (index : ℕ) (old : List Config)
    : List Config → Config → Type 0 where
  -- The list stays, and the answer is its last section of the name.
  kept :
      (front : List Config) (config : Config) (back : List Config)
      → old ≡ front ++ config ∷ back
      → config.name ≡ line
      → NoSection line back
      → Sectioned line index old old config
  -- None has the name: the answer is a new section without lines, in its place in the list.
  made :
      (front back : List Config)
      → old ≡ front ++ back
      → NoSection line old
      → NoneBehind line front
      → StartsBehind line back
      → Sectioned line index old
          (front ++ (record { name = line; line = []; index = index }) ∷ back)
          (record { name = line; line = []; index = index })

-- How the loop over the list ends: with the last section of the name, or with what it had.
data Search (line : Bytes) (master : List Config) (o : Option Config) : Option Config → Type 0 where
  last :
      (front : List Config) (config : Config) (back : List Config)
      → master ≡ front ++ config ∷ back
      → config.name ≡ line
      → NoSection line back
      → Search line master o (some config)
  absent : NoSection line master → Search line master o o

Search-hit :
    (line : Bytes) (d : Config) (master : List Config) (o r : Option Config)
    → d.name ≡ line
    → Search line master (some d) r
    → Search line (d ∷ master) o r
Search-hit line d master o _ e (last front c back q n b) =
    last (d ∷ front) c back (ap (λ l. d ∷ l) q) n b
Search-hit line d master o _ e (absent none_has) = last [] d master refl e none_has

Search-miss :
    (line : Bytes) (d : Config) (master : List Config) (o r : Option Config)
    → d.name ≢ line
    → Search line master o r
    → Search line (d ∷ master) o r
Search-miss line d master o _ e (last front c back q n b) =
    last (d ∷ front) c back (ap (λ l. d ∷ l) q) n b
Search-miss line d master o _ e (absent none_has) = absent (e, none_has)

find_config-Search :
    (line : Bytes) (master : List Config) (o : Option Config)
    → Search line master o (find_config line master o)
unfolding find_config
find_config-Search line [] o = absent tt
find_config-Search line (d ∷ master) o = elim (Bool-cases (str_eq d.name line)) [
  | inl e ↦ rw e (
      Search-hit line d master o (find_config line master (some d)) (str_eq→eq d.name line e)
        (find_config-Search line master (some d)))
  | inr e ↦ rw e (
      Search-miss line d master o (find_config line master o) (str_eq-ne d.name line e)
        (find_config-Search line master o))
]

Search-kept :
    (line : Bytes) (index : ℕ) (master : List Config) (r : Option Config) (c : Config)
    → Search line master none r
    → r ≡ some c
    → Sectioned line index master master c
Search-kept line index master _ c (last front d back q n b) e =
    let p : c ≡ d = cc in rw p (kept front d back q n b)
Search-kept line index master _ c (absent none_has) e = absurd (no_config e)
  where
    no_config : {d : Config} → none ≡ some d → ⊥
    no_config e = cc

Search-none :
    (line : Bytes) (master : List Config) (r : Option Config)
    → Search line master none r
    → r ≡ none
    → NoSection line master
Search-none line master _ (last front d back q n b) e = absurd (no_config e)
  where
    no_config : {d : Config} → some d ≡ none → ⊥
    no_config e = cc
Search-none line master _ (absent none_has) e = none_has

-- The new section goes in front of the first one whose name is above its own.
add-made :
    (line : Bytes) (index : ℕ) (c : Config) (old : List Config)
    → c.name ≡ line
    → (front back : List Config) × ((old ≡ front ++ back)
        × (listnode_add config_cmp c old ≡ front ++ c ∷ back)
        × NoneBehind line front
        × StartsBehind line back)
unfolding listnode_add
add-made line index c [] n = ([], [], (refl, refl, tt, tt))
add-made line index c (d ∷ old) n = elim (Bool-cases (config_cmp c d)) [
  | inl k ↦
      let i : listnode_add config_cmp c (d ∷ old) ≡ c ∷ d ∷ old = rw k refl in
      ([], d ∷ old, (refl, i, tt, ap (λ l. str_lt l d.name) (sym n) ∙ k))
  | inr k ↦
      let i : listnode_add config_cmp c (d ∷ old) ≡ d ∷ listnode_add config_cmp c old = rw k refl in
      let (front, back, (q, g, b, s)) = add-made line index c old n in
      (
        d ∷ front,
        back,
        (ap (λ l. d ∷ l) q, i ∙ ap (λ l. d ∷ l) g, (ap (λ l. str_lt l d.name) (sym n) ∙ k, b), s),
      )
]

listnode_add-Sectioned :
    (line : Bytes) (index : ℕ) (old : List Config)
    → NoSection line old
    → Sectioned line index old
        (listnode_add config_cmp (record { name = line; line = []; index = index }) old)
        (record { name = line; line = []; index = index })
listnode_add-Sectioned line index old none_has =
    let (front, back, (q, g, b, s)) =
      add-made line index (record { name = line; line = []; index = index }) old refl in
    rw g (made front back q none_has b s)

-- The sections of a slot; NULL has none.
abbrev pub sections : Option (List Config) → List Config
sections none = []
sections (some master) = master

pub record Section (v : Vector (List Config)) (index : ℕ) (line : Bytes) (o : Option (List Config))
    (r : Option (Vector (List Config) × Config)) : Type 0 where
  pub configvec : Vector (List Config)
  pub config : Config
  pub master : List Config
  pub run : r ≡ some (configvec, config)
  pub wf : IsVector configvec
  pub here : vector_lookup configvec index ≡ some (some master)
  pub sectioned : Sectioned line index (sections o) master config
  pub elsewhere : (j : ℕ) → index ≢ j → vector_lookup configvec j ≡ vector_lookup v j

-- The vector has a list in the slot, and answers as before elsewhere.
record Listed (v : Vector (List Config)) (index : ℕ) (master : List Config)
    (r : Option (Vector (List Config) × List Config)) : Type 0 where
  configvec : Vector (List Config)
  run : r ≡ some (configvec, master)
  wf : IsVector configvec
  here : vector_lookup configvec index ≡ some (some master)
  elsewhere : (j : ℕ) → index ≢ j → vector_lookup configvec j ≡ vector_lookup v j

view_self :
    {v w : Vector (List Config)} (i : ℕ) (o : Option (List Config))
    → Written v w i o
    → vector_lookup w i ≡ some o
view_self {v} {w} i o t = t.view i ∙ rw (==_refl i) refl

view_ne :
    {v w : Vector (List Config)} (i j : ℕ) (o : Option (List Config))
    → Written v w i o
    → i ≢ j
    → vector_lookup w j ≡ vector_lookup v j
view_ne {v} {w} i j o t n = t.view j ∙ rw (ne→== i j n) refl

below_max :
    (v : Vector (List Config)) (i : ℕ) (master : List Config)
    → IsVector v
    → vector_lookup v i ≡ some (some master)
    → leb v.max i ≡ false
below_max v i master w e = elim (Bool-cases (leb v.max i)) [
  | inr b ↦ b
  | inl b ↦ absurd (no_list (sym (vector_lookup-null v i (leb→le v.max i b)) ∙ e))
]
  where
    no_list : some none ≡ some (some master) → ⊥
    no_list q = cc

config_master-Listed :
    (v : Vector (List Config)) (index : ℕ) (o : Option (List Config))
    → IsVector v
    → index < 2 ^ 31
    → vector_lookup v index ≡ some o
    → Listed v index (sections o) (config_master v index)
unfolding config_master
config_master-Listed v index (some master) w h e =
    let (u, run, wf, room, view) = vector_lookup_ensure_lem v index (some master) w h e in
    record {
      configvec = u;
      run = rw (run, ◌>>=◌) refl;
      wf = wf;
      here = view index ∙ e;
      elsewhere = λ j n. view j;
    }
config_master-Listed v index none w h e =
    let (u, run, wf, room, view) = vector_lookup_ensure_lem v index none w h e in
    let (x, stored, t) = vector_set_index_lem u index (some []) wf h in
    record {
      configvec = x;
      run = rw (run, ◌>>=◌) (rw (stored, ◌>>=◌) refl);
      wf = t.wf;
      here = view_self index (some []) t;
      elsewhere = λ j n. view_ne index j (some []) t n ∙ view j;
    }

-- A list is changed in its slot.
store_in_place :
    (v : Vector (List Config)) (index : ℕ) (o : Option (List Config))
    → leb v.max index ≡ false
    → record v { index = set v.index index o } ≡ store v index o
unfolding store
store_in_place v index o e = rw e refl

-- On a well-formed vector and an index below 2 ^ 31, `config_get` gives a section whose name is the
-- text. If the list of the index has sections of the name, it is the last of them, and the list stays.
-- If it has none, or there is no list, the section is new, without lines, and put into the list of the
-- index in front of the first section whose name is above its own by `strcmp`, or last; the other
-- sections stay. The lists of the other indices are as before.
pub config_get-Section :
    (v : Vector (List Config)) (index : ℕ) (line : Bytes) (o : Option (List Config))
    → IsVector v
    → index < 2 ^ 31
    → vector_lookup v index ≡ some o
    → Section v index line o (config_get v index line)
unfolding config_get
config_get-Section v index line o w h e =
    let m : Listed v index (sections o) (config_master v index) =
      config_master-Listed v index o w h e in
    let u : Vector (List Config) = m.configvec in
    let le : leb u.max index ≡ false = below_max u index (sections o) m.wf m.here in
    let found : Search line (sections o) none (find_config line (sections o) none) =
      find_config-Search line (sections o) none in
    elim (Option-cases (find_config line (sections o) none)) [
      | inr (c, f) ↦ record {
        configvec = u;
        config = c;
        master = sections o;
        run = rw (m.run, ◌>>=◌) (rw f refl);
        wf = m.wf;
        here = m.here;
        sectioned =
            Search-kept line index (sections o) (find_config line (sections o) none) c found f;
        elsewhere = m.elsewhere;
      }
      | inl f ↦
          let c : Config = record { name = line; line = []; index = index } in
          let new : List Config = listnode_add config_cmp c (sections o) in
          let room : index < u.alloced = omega (arith, leb_below u.max index le, m.wf.within) in
          let t : Written u (store u index (some new)) index (some new) =
            store-Written u u index (some new) m.wf m.wf (Grows-refl u) room in
          record {
            configvec = store u index (some new);
            config = c;
            master = new;
            run =
                rw (m.run, ◌>>=◌)
                  (rw f (ap (λ x. some (x, c)) (store_in_place u index (some new) le)));
            wf = t.wf;
            here = view_self index (some new) t;
            sectioned =
                listnode_add-Sectioned line index (sections o)
                  (Search-none line (sections o) (find_config line (sections o) none) found f);
            elsewhere = λ j n. view_ne index j (some new) t n ∙ m.elsewhere j n;
          }
    ]
  where
    leb_below : (a b : ℕ) → leb a b ≡ false → b < a
    leb_below a b e = ground arith
