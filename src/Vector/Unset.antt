-- ===== src/Vector/Unset.antt =====
-- vector.c: `vector_unset`.
use mksh.Prelude.{
  ◌>>=◌, ℕ, zero, suc, ◌+◌, ◌-◌, ◌≤◌, ◌<◌, ◌≡◌, ◌≢◌, refl, sym, ◌∙◌, ap, inl, inr, ◌⊎◌, false,
  Option, none, some, List, [], ◌∷◌, arith, ltb, leb, ◌==◌, if◌then◌else◌, Bool-cases, length,
  get_elem?, ltb→lt, ltb→le, leb→le, ==→eq, set, length-set, get_elem?-set_self, get_elem?-set_ne,
}
use mksh.Vector.{Vector, IsVector, vector_slot, vector_lookup, shrink, unset_last, vector_unset}
use mksh.Vector.View.{vector_lookup-slot, vector_lookup-null}

get_elem?-lt :
    {B : Type 0} (xs : List B) (i : ℕ) → i < length xs → (x : B) × (get_elem? xs i ≡ some x)
get_elem?-lt [] i h = elim h [ ]
get_elem?-lt (x ∷ xs) zero h = (x, refl)
get_elem?-lt (x ∷ xs) (suc i) h = get_elem?-lt xs i (omega arith)

module _ {A : Type 0} where
  -- `m` is where the walk down from `i` stops.
  pub record Shrunk (index : List (Option A)) (i m : ℕ) : Type 0 where
    pub bound : m ≤ i
    pub cleared : (j : ℕ) → m ≤ j → j < i → get_elem? index j ≡ some none
    pub last : (m ≡ 0) ⊎ ((x : A) × (get_elem? index (m - 1) ≡ some (some x)))

  Shrunk-suc :
      {index : List (Option A)} {i m : ℕ}
      → get_elem? index i ≡ some none
      → Shrunk index i m
      → Shrunk index (suc i) m
  Shrunk-suc {index} {i} {m} e s = record {
    bound = omega (arith, s.bound);
    cleared = λ j p q. elim (Bool-cases (ltb j i)) [
      | inl lt ↦ s.cleared j p (ltb→lt j i lt)
      | inr ge ↦ let same : i ≡ j = omega (arith, ltb→le j i ge) in rw (← same) e
    ];
    last = s.last;
  }

  shrink-Shrunk :
      (index : List (Option A)) (i : ℕ)
      → i ≤ length index
      → (m : ℕ) × (shrink index i i ≡ some m) × Shrunk index i m
  unfolding shrink
  shrink-Shrunk index zero h = (
    0,
    refl,
    record { bound = omega arith; cleared = λ j p q. absurd (omega arith); last = inl refl },
  )
  shrink-Shrunk index (suc i) h =
      step (get_elem?-lt index i (omega arith)) (shrink-Shrunk index i (omega arith))
    where
      step :
          ((o : Option A) × (get_elem? index i ≡ some o))
          → ((m : ℕ) × (shrink index i i ≡ some m) × Shrunk index i m)
          → (m : ℕ) × (shrink index (suc i) (suc i) ≡ some m) × Shrunk index (suc i) m
      step (none, e) (m, r, s) = (m, rw (e, shrink) r, Shrunk-suc e s)
      step (some x, e) (m, r, s) = (
        suc i,
        rw (e, shrink) refl,
        record {
          bound = omega arith;
          cleared = λ j p q. absurd (omega arith);
          last = inr (x, ap (get_elem? index) (omega arith) ∙ e);
        },
      )

  -- Slot `i` cleared, and `max` set to `m`.
  abbrev cut : Vector A → ℕ → ℕ → Vector A
  cut v i m = record v { max = m; index = set v.index i none }

  module _ (v : Vector A) (i m : ℕ) (wf : IsVector v) (h : i < v.alloced) (le : m ≤ v.max) where
    slot-cut_self : vector_slot (cut v i m) i ≡ some none
    slot-cut_self = get_elem?-set_self v.index i none (omega (arith, wf.sized))

    slot-cut_ne : (j : ℕ) → i ≢ j → vector_slot (cut v i m) j ≡ vector_slot v j
    slot-cut_ne j ne = get_elem?-set_ne v.index i j none ne

    slot-cut_above : (j : ℕ) → v.max ≤ j → j < v.alloced → vector_slot (cut v i m) j ≡ some none
    slot-cut_above j p q = elim (Bool-cases (i == j)) [
      | inl e ↦ rw (← ==→eq i j e) slot-cut_self
      | inr n ↦ slot-cut_ne j (λ e. grind (arith, e)) ∙ wf.cleared j p q
    ]

    cut-IsVector :
        ((j : ℕ) → m ≤ j → j < v.max → vector_slot (cut v i m) j ≡ some none) → IsVector (cut v i m)
    cut-IsVector c = record {
      sized = length-set v.index i none ∙ wf.sized;
      room = wf.room;
      within = omega (arith, wf.within);
      small = wf.small;
      cleared = λ j p q. elim (Bool-cases (ltb j v.max)) [
        | inl lt ↦ c j p (ltb→lt j v.max lt)
        | inr ge ↦ slot-cut_above j (ltb→le j v.max ge) q
      ];
    }

    view-cut :
        IsVector (cut v i m)
        → (j : ℕ) → vector_lookup (cut v i m) j ≡ (if i == j then some none else vector_lookup v j)
    view-cut iw j = elim (Bool-cases (ltb j v.alloced)) [
      | inr ge ↦
          let out : (i == j) ≡ false = ground arith in
          rw out (
            vector_lookup-null (cut v i m) j (omega (arith, wf.within, ltb→le j v.alloced ge))
            ∙ sym (vector_lookup-null v j (omega (arith, wf.within, ltb→le j v.alloced ge))))
      | inl lt ↦
          vector_lookup-slot (cut v i m) j iw (ltb→lt j v.alloced lt) ∙ elim (Bool-cases (i == j)) [
            | inl e ↦ rw e (rw (← ==→eq i j e) slot-cut_self)
            | inr n ↦ rw n (
                slot-cut_ne j (λ e. grind (arith, e))
                ∙ sym (vector_lookup-slot v j wf (ltb→lt j v.alloced lt)))
          ]
    ]

  pub record Removed (v w : Vector A) (i : ℕ) : Type 0 where
    pub wf : IsVector w
    pub view : (j : ℕ) → vector_lookup w j ≡ (if i == j then some none else vector_lookup v j)
    pub kept : i + 1 ≢ v.max → w.max ≡ v.max
    pub trimmed :
        i + 1 ≡ v.max → (w.max ≡ 0) ⊎ ((x : A) × (vector_lookup w (w.max - 1) ≡ some (some x)))

  unset_above : (v : Vector A) (i : ℕ) → IsVector v → v.alloced ≤ i → Removed v v i
  unset_above v i wf h = record {
    wf = wf;
    view = λ j. elim (Bool-cases (i == j)) [
      | inl e ↦ rw e (vector_lookup-null v j (omega (arith, wf.within, ==→eq i j e)))
      | inr n ↦ rw n refl
    ];
    kept = λ ne. refl;
    trimmed = λ e. absurd (omega (arith, wf.within));
  }

  unset_inner :
      (v : Vector A) (i : ℕ)
      → IsVector v
      → i < v.alloced
      → i + 1 ≢ v.max
      → Removed v (cut v i v.max) i
  unset_inner v i wf h ne =
      let iw : IsVector (cut v i v.max) =
        cut-IsVector v i v.max wf h (omega arith) (λ j p q. absurd (omega arith)) in
      record {
        wf = iw;
        view = view-cut v i v.max wf h (omega arith) iw;
        kept = λ _. refl;
        trimmed = λ e. absurd (ne e);
      }

  unset_end :
      (v : Vector A) (i m : ℕ)
      → IsVector v
      → i + 1 ≡ v.max
      → Shrunk (set v.index i none) i m
      → Removed v (cut v i m) i
  unset_end v i m wf e s =
      let h : i < v.alloced = omega (arith, wf.within) in
      let le : m ≤ v.max = omega (arith, s.bound) in
      let below = λ (j : ℕ) (p : m ≤ j) (q : j < v.max). the_slot j p (omega arith) h in
      let iw : IsVector (cut v i m) = cut-IsVector v i m wf h le below in
      record {
        wf = iw;
        view = view-cut v i m wf h le iw;
        kept = λ ne. absurd (ne e);
        trimmed = λ _. last_slot iw s.last;
      }
    where
      the_slot : (j : ℕ) → m ≤ j → j ≤ i → i < v.alloced → vector_slot (cut v i m) j ≡ some none
      the_slot j p q h = elim (Bool-cases (i == j)) [
        | inl same ↦
            rw (← ==→eq i j same) (get_elem?-set_self v.index i none (omega (arith, wf.sized)))
        | inr n ↦ s.cleared j p (ground arith)
      ]

      last_slot :
          IsVector (cut v i m)
          → (m ≡ 0) ⊎ ((x : A) × (get_elem? (set v.index i none) (m - 1) ≡ some (some x)))
          → (m ≡ 0) ⊎ ((x : A) × (vector_lookup (cut v i m) (m - 1) ≡ some (some x)))
      last_slot iw (inl z) = inl z
      last_slot iw (inr (x, p)) =
          inr (x, vector_lookup-slot (cut v i m) (m - 1) iw (omega (arith, wf.within, s.bound)) ∙ p)

  unset_last-Removed :
      (v : Vector A) (i k : ℕ)
      → IsVector v
      → i + 1 ≡ v.max
      → k ≡ i
      → ((m : ℕ) × (shrink (set v.index i none) i i ≡ some m) × Shrunk (set v.index i none) i m)
      → (w : Vector A) × ((shrink (set v.index i none) i k >>= (λ (m : ℕ). some (cut v i m)))
          ≡ some w)
        × Removed v w i
  unset_last-Removed v i k wf e same (m, r, s) =
      (cut v i m, rw same (rw r refl), unset_end v i m wf e s)

  -- `vector_unset` returns on a well-formed vector for every index. The vector then answers NULL there and what it answered
  -- before everywhere else. If the slot was the last one, the new `max` stands right behind a slot
  -- in use, or is 0; otherwise `max` is unchanged.
  pub vector_unset_lem :
      (v : Vector A) (i : ℕ)
      → IsVector v
      → (w : Vector A) × (vector_unset v i ≡ some w) × Removed v w i
  unfolding vector_unset unset_last
  vector_unset_lem v i wf = elim (Bool-cases (leb v.alloced i)) [
    | inl out ↦ (v, rw out refl, unset_above v i wf (leb→le v.alloced i out))
    | inr inside ↦ elim (Bool-cases (i + 1 == v.max)) [
      | inl last ↦
          let e : i + 1 ≡ v.max = ==→eq (i + 1) v.max last in
          let (w, r, removed) = unset_last-Removed v i (v.max - 1) wf e (omega arith) (
            shrink-Shrunk (set v.index i none) i
              (omega (arith, wf.within, wf.sized, length-set v.index i none))) in
          (w, rw inside (rw last r), removed)
      | inr inner ↦ (
        cut v i v.max,
        rw inside (rw inner refl),
        unset_inner v i wf (ground arith) (λ e. grind (arith, e)),
      )
    ]
  ]
