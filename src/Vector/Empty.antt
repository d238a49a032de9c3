-- ===== src/Vector/Empty.antt =====
-- vector.c: the search for a free slot, and `vector_set`.
use mksh.Prelude.{
  ℕ, zero, suc, ◌+◌, ◌^◌, ◌≤◌, ◌<◌, ◌≡◌, ◌≢◌, refl, sym, ◌∙◌, inl, inr, Option, none, some, List,
  [], ◌∷◌, arith, ltb, Bool-cases, ltb→lt, ltb→le, length, get_elem?,
}
use mksh.Vector.{Vector, IsVector, store, vector_lookup, empty_scan, vector_empty_slot, vector_set}
use mksh.Vector.Ensure.{vector_ensure_lem}
use mksh.Vector.View.{Written, store-Written, vector_lookup-slot, vector_lookup-null}

module _ {A : Type 0} where
  -- The first free slot below `max`, or `max` itself.
  pub record IsFirstFree (v : Vector A) (i : ℕ) : Type 0 where
    pub bound : i ≤ v.max
    pub free : vector_lookup v i ≡ some none
    pub used : (j : ℕ) → j < i → vector_lookup v j ≢ some none

  empty_scan-le : (n : ℕ) (xs : List (Option A)) (i : ℕ) → empty_scan n xs i ≤ i + n
  unfolding empty_scan
  empty_scan-le zero xs i = omega arith
  empty_scan-le (suc n) [] i = omega arith
  empty_scan-le (suc n) (none ∷ xs) i = omega arith
  empty_scan-le (suc n) (some x ∷ xs) i = omega (arith, empty_scan-le n xs (i + 1))

  empty_scan-ge : (n : ℕ) (xs : List (Option A)) (i : ℕ) → i ≤ empty_scan n xs i
  unfolding empty_scan
  empty_scan-ge zero xs i = omega arith
  empty_scan-ge (suc n) [] i = omega arith
  empty_scan-ge (suc n) (none ∷ xs) i = omega arith
  empty_scan-ge (suc n) (some x ∷ xs) i = omega (arith, empty_scan-ge n xs (i + 1))

  empty_scan-free :
      (n : ℕ) (xs : List (Option A)) (i k : ℕ)
      → n ≤ length xs
      → empty_scan n xs i ≡ i + k
      → k < n
      → get_elem? xs k ≡ some none
  unfolding empty_scan
  empty_scan-free zero xs i k h e lt = absurd (omega arith)
  empty_scan-free (suc n) [] i k h e lt = absurd (omega arith)
  empty_scan-free (suc n) (none ∷ xs) i zero h e lt = refl
  empty_scan-free (suc n) (none ∷ xs) i (suc k) h e lt = absurd (omega arith)
  empty_scan-free (suc n) (some x ∷ xs) i zero h e lt =
      absurd (omega (arith, empty_scan-ge n xs (i + 1)))
  empty_scan-free (suc n) (some x ∷ xs) i (suc k) h e lt =
      empty_scan-free n xs (i + 1) k (omega arith) (omega arith) (omega arith)

  empty_scan-used :
      (n : ℕ) (xs : List (Option A)) (i j : ℕ)
      → i + j < empty_scan n xs i
      → get_elem? xs j ≢ some none
  unfolding empty_scan
  empty_scan-used zero xs i j h = absurd (omega arith)
  empty_scan-used (suc n) [] i j h = absurd (omega arith)
  empty_scan-used (suc n) (none ∷ xs) i j h = absurd (omega arith)
  empty_scan-used (suc n) (some x ∷ xs) i zero h = λ e. cc
  empty_scan-used (suc n) (some x ∷ xs) i (suc j) h = empty_scan-used n xs (i + 1) j (omega arith)

  empty_scan-none : (n : ℕ) (xs : List (Option A)) (i : ℕ) → n ≡ 0 → empty_scan n xs i ≡ i
  unfolding empty_scan
  empty_scan-none zero xs i e = refl
  empty_scan-none (suc n) xs i e = absurd (omega arith)

  empty_slot-eq : (v : Vector A) → vector_empty_slot v ≡ empty_scan v.max v.index 0
  unfolding vector_empty_slot
  empty_slot-eq v = ground (arith, empty_scan-none v.max v.index 0)

  module _ (v : Vector A) (wf : IsVector v) where
    empty_slot-free : vector_lookup v (vector_empty_slot v) ≡ some none
    empty_slot-free = elim (Bool-cases (ltb (vector_empty_slot v) v.max)) [
      | inl lt ↦
          vector_lookup-slot v (vector_empty_slot v) wf
            (omega (arith, wf.within, ltb→lt (vector_empty_slot v) v.max lt))
          ∙ empty_scan-free v.max v.index 0 (vector_empty_slot v)
              (omega (arith, wf.within, wf.sized)) (omega (arith, empty_slot-eq v))
              (ltb→lt (vector_empty_slot v) v.max lt)
      | inr ge ↦ vector_lookup-null v (vector_empty_slot v) (ltb→le (vector_empty_slot v) v.max ge)
    ]

    empty_slot-le : vector_empty_slot v ≤ v.max
    empty_slot-le = omega (arith, empty_slot-eq v, empty_scan-le v.max v.index 0)

    empty_slot-used : (j : ℕ) → j < vector_empty_slot v → vector_lookup v j ≢ some none
    empty_slot-used j h e =
        empty_scan-used v.max v.index 0 j (omega (arith, empty_slot-eq v))
          (sym (vector_lookup-slot v j wf (omega (arith, wf.within, empty_slot-le))) ∙ e)

    -- `vector_empty_slot` finds the smallest index that `vector_lookup` answers NULL at.
    pub vector_empty_slot-IsFirstFree : IsFirstFree v (vector_empty_slot v)
    vector_empty_slot-IsFirstFree = record {
      bound = empty_slot-le;
      free = empty_slot-free;
      used = empty_slot-used;
    }

  -- `vector_set` returns on a well-formed vector whose `max` is below 2 ^ 31: it stores into the first free
  -- slot, whose index it gives back, and the vector answers as before at every other index.
  pub vector_set_lem :
      (v : Vector A) (val : Option A)
      → IsVector v
      → v.max < 2 ^ 31
      → (w : Vector A) × (vector_set v val ≡ some (w, vector_empty_slot v))
        × IsFirstFree v (vector_empty_slot v)
        × Written v w (vector_empty_slot v) val
  unfolding vector_set
  vector_set_lem v val iv h =
      let f : IsFirstFree v (vector_empty_slot v) = vector_empty_slot-IsFirstFree v iv in
      let i : ℕ = vector_empty_slot v in
      let (w, e, iw, g, lt) = vector_ensure_lem v i iv (omega (arith, f.bound)) in
      (store w i val, rw e, f, store-Written v w i val iv iw g lt)
