-- ===== src/Vector/Count.antt =====
-- vector.c: `vector_count` and `vector_copy`.
use mksh.Prelude.{
  ℕ, zero, suc, ◌+◌, ◌*◌, ◌/◌, ◌%◌, ◌^◌, ◌<◌, ◌≡◌, refl, sym, ap, ◌∙◌, Option, none, some, List, [],
  ◌∷◌, arith, get_elem?, take, length,
}
use mksh.Vector.{Vector, vector_copy, vector_count, count_scan, IsVector}
use mksh.Vector.View.{vector_lookup-slot}
use mksh.Vector.Dense.{Holds}

module _ {A : Type 0} where
  take-whole : (xs : List (Option A)) (n : ℕ) → length xs ≡ n → take n xs ≡ xs
  take-whole [] zero h = refl
  take-whole [] (suc n) h = refl
  take-whole (x ∷ xs) zero h = absurd (omega arith)
  take-whole (x ∷ xs) (suc n) h = ap (λ t. x ∷ t) (take-whole xs n (omega arith))

  -- The copy of a well-formed vector of fewer than 2 ^ 29 slots is equal to it.
  pub vector_copy-same : (v : Vector A) → IsVector v → v.alloced < 2 ^ 29 → vector_copy v ≡ v
  unfolding vector_copy
  vector_copy-same v wf h =
      let whole : ((8 * v.alloced) % 2 ^ 32) / 8 ≡ v.alloced = omega arith in
      ap (λ n. record { max = v.max; alloced = v.alloced; index = take n v.index }) whole
      ∙ ap (λ xs. record { max = v.max; alloced = v.alloced; index = xs })
          (take-whole v.index v.alloced wf.sized)

  in_use : (xs : List A) (j : ℕ) → j < length xs → (x : A) × (get_elem? xs j ≡ some x)
  in_use [] j h = absurd (omega arith)
  in_use (x ∷ xs) zero h = (x, refl)
  in_use (x ∷ xs) (suc j) h = in_use xs j (omega arith)

  count_scan-used :
      (n : ℕ) (xs : List (Option A)) (count : ℕ)
      → ((j : ℕ) → j < n → (x : A) × (get_elem? xs j ≡ some (some x)))
      → count_scan n xs count ≡ count + n
  unfolding count_scan
  count_scan-used zero xs count h = omega arith
  count_scan-used (suc n) [] count h = let (x, e) = h 0 (omega arith) in cc
  count_scan-used (suc n) (none ∷ xs) count h = let (x, e) = h 0 (omega arith) in cc
  count_scan-used (suc n) (some x ∷ xs) count h =
      count_scan-used n xs (count + 1) (λ j k. h (suc j) (omega arith)) ∙ omega arith

  -- `vector_count` of a vector that holds a list is the list's length.
  pub vector_count-length : (v : Vector A) (xs : List A) → Holds v xs → vector_count v ≡ length xs
  unfolding vector_count
  vector_count-length v xs d = count_scan-used v.max v.index 0 slot ∙ omega (arith, d.size)
    where
      slot : (j : ℕ) → j < v.max → (x : A) × (get_elem? v.index j ≡ some (some x))
      slot j h =
          let (x, e) = in_use xs j (omega (arith, d.size)) in
          (
            x,
            sym (vector_lookup-slot v j d.wf (omega (arith, d.wf.within))) ∙ d.slots j ∙ ap some e,
          )
