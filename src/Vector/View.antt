-- ===== src/Vector/View.antt =====
-- A vector as a partial map from indices to pointers: what `vector_lookup` answers before and after
-- each operation.
use mksh.Prelude.{
  ℕ, ◌+◌, ◌%◌, ◌^◌, ◌≤◌, ◌<◌, ◌≡◌, ◌≢◌, refl, sym, ◌∙◌, ap, inl, inr, Option, none, some, arith,
  ltb, leb, ◌==◌, if◌then◌else◌, Bool-cases, ltb→lt, ltb→le, leb→le, ==→eq, length-set,
  get_elem?-set_self, get_elem?-set_ne,
}
use mksh.Vector.{
  Vector, IsVector, store, vector_slot, vector_set_index, vector_lookup, vector_lookup_ensure,
}
use mksh.Vector.Ensure.{Grows, vector_ensure_lem}

module _ {A : Type 0} where
  -- The slots behind `max` hold NULL, so the guard of `vector_lookup` only spares reads.
  pub vector_lookup-slot :
      (v : Vector A) (j : ℕ) → IsVector v → j < v.alloced → vector_lookup v j ≡ vector_slot v j
  unfolding vector_lookup
  vector_lookup-slot v j i h = elim (Bool-cases (leb v.max j)) [
    | inl le ↦ rw le (sym (i.cleared j (leb→le v.max j le) h))
    | inr gt ↦ rw gt refl
  ]

  pub vector_lookup-null : (v : Vector A) (j : ℕ) → v.max ≤ j → vector_lookup v j ≡ some none
  unfolding vector_lookup
  vector_lookup-null v j h = ground arith

  vector_lookup-below : (v : Vector A) (j : ℕ) → j < v.max → vector_lookup v j ≡ vector_slot v j
  unfolding vector_lookup
  vector_lookup-below v j h = ground arith

  -- More room changes no answer.
  pub vector_lookup-Grows :
      {v w : Vector A} (j : ℕ) → IsVector v → Grows v w → vector_lookup w j ≡ vector_lookup v j
  vector_lookup-Grows {v} {w} j i g = elim (Bool-cases (ltb j v.max)) [
    | inl lt ↦
        vector_lookup-below w j (omega (arith, g.max, ltb→lt j v.max lt))
        ∙ g.kept j (omega (arith, i.within, ltb→lt j v.max lt))
        ∙ sym (vector_lookup-below v j (ltb→lt j v.max lt))
    | inr ge ↦
        vector_lookup-null w j (omega (arith, g.max, ltb→le j v.max ge))
        ∙ sym (vector_lookup-null v j (ltb→le j v.max ge))
  ]

  module _ (v : Vector A) (i : ℕ) (val : Option A) (wf : IsVector v) (h : i < v.alloced) where
    max-store : (store v i val).max ≡ (if leb v.max i then i + 1 else v.max)
    unfolding store
    max-store =
        let e : (i + 1) % 2 ^ 32 ≡ i + 1 = omega (arith, wf.small) in
        ap (λ t. if leb v.max i then t else v.max) e

    slot-store_self : vector_slot (store v i val) i ≡ some val
    unfolding store
    slot-store_self = get_elem?-set_self v.index i val (omega (arith, wf.sized))

    slot-store_ne : (j : ℕ) → i ≢ j → vector_slot (store v i val) j ≡ vector_slot v j
    unfolding store
    slot-store_ne j ne = get_elem?-set_ne v.index i j val ne

    alloced-store : (store v i val).alloced ≡ v.alloced
    unfolding store
    alloced-store = refl

    max-store_le : (store v i val).max ≤ v.alloced
    max-store_le = ground (arith, max-store, wf.within)

    max-store_cases : (j : ℕ) → (store v i val).max ≤ j → (i < j) × (v.max ≤ j)
    max-store_cases j p = ground (arith, max-store)

    pub store-IsVector : IsVector (store v i val)
    unfolding store
    store-IsVector = record {
      sized = length-set v.index i val ∙ wf.sized;
      room = wf.room;
      within = max-store_le;
      small = wf.small;
      cleared = λ j p q.
          slot-store_ne j (omega (arith, max-store_cases j p))
          ∙ wf.cleared j (max-store_cases j p).1 q;
    }

    lookup-store_self : vector_lookup (store v i val) i ≡ some val
    unfolding store
    lookup-store_self = vector_lookup-slot (store v i val) i store-IsVector h ∙ slot-store_self

    lookup-store_ne : (j : ℕ) → i ≢ j → vector_lookup (store v i val) j ≡ vector_lookup v j
    unfolding store
    lookup-store_ne j ne = elim (Bool-cases (ltb j v.alloced)) [
      | inl lt ↦
          vector_lookup-slot (store v i val) j store-IsVector (ltb→lt j v.alloced lt)
          ∙ slot-store_ne j ne
          ∙ sym (vector_lookup-slot v j wf (ltb→lt j v.alloced lt))
      | inr ge ↦
          vector_lookup-null (store v i val) j (omega (arith, max-store_le, ltb→le j v.alloced ge))
          ∙ sym (vector_lookup-null v j (omega (arith, wf.within, ltb→le j v.alloced ge)))
    ]

    pub vector_lookup-store :
        (j : ℕ) → vector_lookup (store v i val) j ≡ (if i == j then some val else vector_lookup v j)
    vector_lookup-store j = elim (Bool-cases (i == j)) [
      | inl e ↦ rw e (rw (← ==→eq i j e) lookup-store_self)
      | inr n ↦ rw n (lookup-store_ne j (λ e. grind (arith, e)))
    ]

  -- The write of `vector_set_index` and of `vector_set`: after it the vector answers `val` at index
  -- `i` and what it answered before everywhere else, it is well formed, and its `max` covers `i`.
  pub record Written (v w : Vector A) (i : ℕ) (val : Option A) : Type 0 where
    pub wf : IsVector w
    pub max : w.max ≡ (if leb v.max i then i + 1 else v.max)
    pub view : (j : ℕ) → vector_lookup w j ≡ (if i == j then some val else vector_lookup v j)

  pub store-Written :
      (v w : Vector A) (i : ℕ) (val : Option A)
      → IsVector v
      → IsVector w
      → Grows v w
      → i < w.alloced
      → Written v (store w i val) i val
  store-Written v w i val iv iw g h = record {
    wf = store-IsVector w i val iw h;
    max = rw (← g.max) (max-store w i val iw h);
    view = λ j. rw (← vector_lookup-Grows j iv g) (vector_lookup-store w i val iw h j);
  }

  -- `vector_set_index` returns on a well-formed vector at every index below 2 ^ 31: it gives back the
  -- index, and the vector is still well formed, answers `val` there and what it answered before at
  -- every other index.
  pub vector_set_index_lem :
      (v : Vector A) (i : ℕ) (val : Option A)
      → IsVector v
      → i < 2 ^ 31
      → (w : Vector A) × (vector_set_index v i val ≡ some (w, i)) × Written v w i val
  unfolding vector_set_index
  vector_set_index_lem v i val iv h =
      let (w, e, iw, g, lt) = vector_ensure_lem v i iv h in
      (store w i val, rw e, store-Written v w i val iv iw g lt)

  -- On a well-formed vector and an index below 2 ^ 31, `vector_lookup_ensure` answers what
  -- `vector_lookup` answers. The array then holds the index, and the vector answers as before at
  -- every index.
  pub vector_lookup_ensure_lem :
      (v : Vector A) (i : ℕ) (o : Option A)
      → IsVector v
      → i < 2 ^ 31
      → vector_lookup v i ≡ some o
      → (w : Vector A) × (vector_lookup_ensure v i ≡ some (w, o))
        × IsVector w
        × (i < w.alloced)
        × ((j : ℕ) → vector_lookup w j ≡ vector_lookup v j)
  unfolding vector_lookup_ensure
  vector_lookup_ensure_lem v i o iv h eo =
      let (w, e, iw, g, lt) = vector_ensure_lem v i iv h in
      let slot : vector_slot w i ≡ some o =
        sym (vector_lookup-slot w i iw lt) ∙ vector_lookup-Grows i iv g ∙ eo in
      (w, rw e (rw slot), iw, lt, λ j. vector_lookup-Grows j iv g)
