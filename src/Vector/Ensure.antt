-- ===== src/Vector/Ensure.antt =====
-- vector.c: new arrays, and the growing of an array by `vector_ensure`.
use mksh.Prelude.{
  ℕ, zero, suc, ◌+◌, ◌-◌, ◌*◌, ◌%◌, ◌^◌, ◌≤◌, ◌<◌, ◌≡◌, refl, ◌∙◌, ap, inl, inr, Option, none, some,
  ◌++◌, arith, ltb, Bool-cases, le→ltb, lt→ltb, ltb→lt, ltb→le, length, replicate, length-append,
  length-replicate, get_elem?-append_left, get_elem?-append_right, get_elem?-replicate,
}
use native.Mathlib.Nat.{pow-suc, pow-zero}
use mksh.Vector.{
  Vector, IsVector, double, ensure_loop, vector_ensure, vector_slot, vector_init, at_least_one,
}

module _ {A : Type 0} where
  abbrev null : Option A
  null = none

  -- `w` is `v` with more room.
  pub record Grows (v w : Vector A) : Type 0 where
    pub max : w.max ≡ v.max
    pub alloced : v.alloced ≤ w.alloced
    pub kept : (j : ℕ) → j < v.alloced → vector_slot w j ≡ vector_slot v j

  pub Grows-refl : (v : Vector A) → Grows v v
  Grows-refl v = record { max = refl; alloced = omega arith; kept = λ j h. refl }

  pub Grows-trans : {u v w : Vector A} → Grows u v → Grows v w → Grows u w
  Grows-trans g h = record {
    max = h.max ∙ g.max;
    alloced = omega arith;
    kept = λ j lt. h.kept j (omega arith) ∙ g.kept j lt;
  }

  abbrev wider : Vector A → Vector A
  wider v = record v { alloced = v.alloced * 2; index = v.index ++ replicate v.alloced none }

  double-wider : (v : Vector A) → v.alloced < 2 ^ 31 → double v ≡ some (wider v)
  unfolding double
  double-wider v h =
      let e : (v.alloced * 2) % 2 ^ 32 ≡ v.alloced * 2 = omega arith in
      rw e (rw (le→ltb (v.alloced * 2) (v.alloced + v.alloced) (omega arith)))

  wider-kept :
      {v : Vector A}
      → IsVector v
      → (j : ℕ) → j < v.alloced
      → vector_slot (wider v) j ≡ vector_slot v j
  wider-kept {v} i j h =
      get_elem?-append_left v.index (replicate v.alloced none) j (omega (arith, i.sized))

  wider-null :
      {v : Vector A}
      → IsVector v
      → (j : ℕ) → v.alloced ≤ j
      → j < v.alloced * 2
      → vector_slot (wider v) j ≡ some none
  wider-null {v} i j h k =
      get_elem?-append_right v.index (replicate v.alloced none) j (omega (arith, i.sized))
      ∙ get_elem?-replicate v.alloced (j - length v.index) none (omega (arith, i.sized))

  wider-IsVector : {v : Vector A} → IsVector v → v.alloced < 2 ^ 31 → IsVector (wider v)
  wider-IsVector {v} i h = record {
    sized =
        length-append v.index (replicate v.alloced none)
        ∙ omega (arith, i.sized, length-replicate {0} v.alloced null);
    room = omega arith;
    within = omega arith;
    small = omega arith;
    cleared = λ j p q. elim (Bool-cases (ltb j v.alloced)) [
      | inl lt ↦ wider-kept i j (ground arith) ∙ i.cleared j p (ground arith)
      | inr ge ↦ wider-null i j (ground arith) q
    ];
  }

  wider-Grows : {v : Vector A} → IsVector v → Grows v (wider v)
  wider-Grows i = record { max = refl; alloced = omega arith; kept = wider-kept i }

  abbrev pub Ensured : Vector A → ℕ → Option (Vector A) → Type 0
  Ensured v num r = (w : Vector A) × (r ≡ some w) × IsVector w × Grows v w × (num < w.alloced)

  now-Ensured :
      (fuel : ℕ) (v : Vector A) (num : ℕ)
      → IsVector v
      → num < v.alloced
      → Ensured v num (ensure_loop (suc fuel) v num)
  unfolding ensure_loop
  now-Ensured fuel v num i lt = (v, rw (lt→ltb num v.alloced lt), i, Grows-refl v, lt)

  later-Ensured :
      (fuel : ℕ) (v : Vector A) (num : ℕ)
      → IsVector v
      → v.alloced ≤ num
      → num < 2 ^ 31
      → Ensured (wider v) num (ensure_loop fuel (wider v) num)
      → Ensured v num (ensure_loop (suc fuel) v num)
  unfolding ensure_loop
  later-Ensured fuel v num i ge h (w, e, iw, g, lt) = (
    w,
    rw (le→ltb num v.alloced ge) (rw (double-wider v (omega arith)) e),
    iw,
    Grows-trans (wider-Grows i) g,
    lt,
  )

  ensure_loop-Ensured :
      (fuel : ℕ) (v : Vector A) (num : ℕ)
      → IsVector v
      → num < 2 ^ 31
      → num < v.alloced * 2 ^ fuel
      → Ensured v num (ensure_loop (suc fuel) v num)
  ensure_loop-Ensured zero v num i h k = now-Ensured zero v num i (omega (arith, pow-zero 2))
  ensure_loop-Ensured (suc fuel) v num i h k = elim (Bool-cases (ltb num v.alloced)) [
    | inl lt ↦ now-Ensured (suc fuel) v num i (ltb→lt num v.alloced lt)
    | inr ge ↦
        let le : v.alloced ≤ num = ltb→le num v.alloced ge in
        later-Ensured (suc fuel) v num i le h (
          ensure_loop-Ensured fuel (wider v) num (wider-IsVector i (omega arith)) h
            (omega (arith, ap (λ (t : ℕ). v.alloced * t) (pow-suc 2 fuel))))
  ]

  -- For a well-formed vector and an index below 2 ^ 31, `vector_ensure` returns: the array then holds the index, it is
  -- still a well-formed vector, and its old content and its `max` are unchanged.
  pub vector_ensure_lem :
      (v : Vector A) (num : ℕ) → IsVector v → num < 2 ^ 31 → Ensured v num (vector_ensure v num)
  unfolding vector_ensure
  vector_ensure_lem v num i h = ensure_loop-Ensured 32 v num i h (omega (arith, i.room))

  -- A new vector is well formed, for every size that an `unsigned int` holds.
  pub vector_init-IsVector : (size : ℕ) → size < 2 ^ 32 → IsVector (vector_init {A = A} size)
  unfolding vector_init
  vector_init-IsVector size h = record {
    sized = length-replicate (at_least_one size) none;
    room = ground arith;
    within = omega arith;
    small = ground arith;
    cleared = λ j p q. get_elem?-replicate (at_least_one size) j none q;
  }
