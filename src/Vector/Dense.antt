-- ===== src/Vector/Dense.antt =====
-- A vector that only `vector_set` has filled, as a list: the split command lines, the description
-- vectors and the answers to completion are of this form.
use mksh.Prelude.{
  ℕ, zero, suc, ◌^◌, ◌<◌, ◌≡◌, ◌≢◌, refl, ◌∙◌, ap, inl, inr, Bool, true, false, none, some, List,
  [], ◌∷◌, ◌++◌, arith, ltb, ◌==◌, if◌then◌else◌, Bool-cases, length, get_elem?, ltb→lt, ltb→le,
  length-append,
}
use mksh.Vector.{Vector, IsVector, vector_lookup, vector_set, vector_init, vector_empty_slot}
use mksh.Vector.Ensure.{vector_init-IsVector}
use mksh.Vector.View.{Written, vector_lookup-null}
use mksh.Vector.Empty.{IsFirstFree, vector_set_lem}

module _ {A : Type 0} where
  pub record Holds (v : Vector A) (xs : List A) : Type 0 where
    pub wf : IsVector v
    pub size : v.max ≡ length xs
    pub slots : (j : ℕ) → vector_lookup v j ≡ some (get_elem? xs j)

  get_elem?-used : (xs : List A) (j : ℕ) → j < length xs → get_elem? xs j ≢ none
  get_elem?-used [] j h = elim h [ ]
  get_elem?-used (x ∷ xs) zero h = λ e. cc
  get_elem?-used (x ∷ xs) (suc j) h = get_elem?-used xs j (omega arith)

  get_elem?-snoc :
      (xs : List A) (x : A) (j : ℕ)
      → get_elem? (xs ++ x ∷ []) j ≡ (if length xs == j then some x else get_elem? xs j)
  get_elem?-snoc [] x zero = refl
  get_elem?-snoc [] x (suc j) = ground arith
  get_elem?-snoc (y ∷ xs) x zero = ground arith
  get_elem?-snoc (y ∷ xs) x (suc j) = ground (arith, get_elem?-snoc xs x j)

  pub vector_init-Holds : (size : ℕ) → size < 2 ^ 32 → Holds (vector_init {A = A} size) []
  vector_init-Holds size h = record {
    wf = vector_init-IsVector size h;
    size = unfold vector_init in refl;
    slots = λ j. vector_lookup-null (vector_init size) j (unfold vector_init in omega arith);
  }

  module _ (v : Vector A) (xs : List A) (d : Holds v xs) where
    empty_slot-length : IsFirstFree v (vector_empty_slot v) → vector_empty_slot v ≡ length xs
    empty_slot-length f = elim (Bool-cases (ltb (vector_empty_slot v) (length xs))) [
      | inl lt ↦ absurd (
          get_elem?-used xs (vector_empty_slot v) (ltb→lt (vector_empty_slot v) (length xs) lt)
            (cc (d.slots (vector_empty_slot v), f.free)))
      | inr ge ↦ omega (arith, ltb→le (vector_empty_slot v) (length xs) ge, f.bound, d.size)
    ]

    Written-Holds :
        (w : Vector A) (i : ℕ) (x : A)
        → i ≡ length xs
        → Written v w i (some x)
        → Holds w (xs ++ x ∷ [])
    Written-Holds w i x e h = record {
      wf = h.wf;
      size = ground (arith, h.max, d.size, length-append xs (x ∷ []));
      slots = λ j.
          h.view j ∙ rw e (rw (get_elem?-snoc xs x j) (rw (d.slots j) (pick (length xs == j) j)));
    }
      where
        pick :
            (b : Bool) (j : ℕ)
            → (if b then some (some x) else some (get_elem? xs j))
              ≡ some (if b then some x else get_elem? xs j)
        pick true j = refl
        pick false j = refl

    -- On a vector that holds a list of fewer than 2 ^ 31 pointers and no more, `vector_set` of a pointer
    -- returns the list's length, and the vector then holds the list with the pointer behind it.
    pub vector_set-Holds :
        (x : A)
        → length xs < 2 ^ 31
        → (w : Vector A) × (vector_set v (some x) ≡ some (w, length xs)) × Holds w (xs ++ x ∷ [])
    vector_set-Holds x h =
        let (w, e, f, written) = vector_set_lem v (some x) d.wf (omega (arith, d.size)) in
        (
          w,
          e ∙ ap (λ k. some (w, k)) (empty_slot-length f),
          Written-Holds w (vector_empty_slot v) x (empty_slot-length f) written,
        )
