-- ===== src/Vector.antt =====
-- vector.c, vector.h: the growable array of pointers under the command tables, the split command
-- lines and the configuration. NULL is `none`; a slot's content is an `Option A`. An operation
-- returns `none` where the code would touch memory outside the array or recur without end.
-- Allocation itself does not fail: memory.c ends the process when it does.
pub mod Ensure
pub mod View
pub mod Empty
pub mod Unset
pub mod Dense
pub mod Count
use mksh.Prelude.{
  ℕ, zero, suc, ◌+◌, ◌-◌, ◌*◌, ◌/◌, ◌%◌, ◌^◌, ◌≤◌, ◌<◌, ◌≡◌, Bool, true, false, Option, none, some,
  List, [], ◌∷◌, ◌++◌, leb, ltb, ◌==◌, if◌then◌else◌, get_elem?, set, take, replicate, length,
  ◌>>=◌,
}

abbrev pub u32_mod : ℕ
u32_mod = 2 ^ 32

pub record Vector (A : Type 0) : Type 0 where
  pub max : ℕ
  pub alloced : ℕ
  pub index : List (Option A)

abbrev pub at_least_one : ℕ → ℕ
at_least_one size = if size == 0 then 1 else size

module _ {A : Type 0} where
  pub vector_init : ℕ → Vector A
  vector_init size = record {
    max = 0;
    alloced = at_least_one size;
    index = replicate (at_least_one size) none;
  }

  -- `size` is an `unsigned int`, and a pointer has 8 bytes: of 2 ^ 29 slots or more, fewer are copied.
  pub vector_copy : Vector A → Vector A
  vector_copy v =
      let size = (8 * v.alloced) % u32_mod in
      record { max = v.max; alloced = v.alloced; index = take (size / 8) v.index }

  -- The macro `vector_slot`: a read outside the array is a fault.
  abbrev pub vector_slot : Vector A → ℕ → Option (Option A)
  vector_slot v i = get_elem? v.index i

  -- One doubling. The `memset` clears `alloced` slots behind the old ones, which is a fault when
  -- the doubled size has wrapped.
  pub double : Vector A → Option (Vector A)
  double v =
      let size = (v.alloced * 2) % u32_mod in
      if ltb size (v.alloced + v.alloced)
      then none
      else some (record v { alloced = size; index = v.index ++ replicate v.alloced none })

  -- The recursion of `vector_ensure`, on fuel.
  pub ensure_loop : ℕ → Vector A → ℕ → Option (Vector A)
  ensure_loop zero v num = none
  ensure_loop (suc fuel) v num =
      let grow = double v >>= (λ (w : Vector A). ensure_loop fuel w num) in
      if ltb num v.alloced then some v else grow

  -- The array doubles at most 31 times before it holds index 2 ^ 31 - 1.
  pub vector_ensure : Vector A → ℕ → Option (Vector A)
  vector_ensure v num = ensure_loop 33 v num

  pub empty_scan : ℕ → List (Option A) → ℕ → ℕ
  empty_scan zero xs i = i
  empty_scan (suc n) [] i = i
  empty_scan (suc n) (none ∷ xs) i = i
  empty_scan (suc n) (some x ∷ xs) i = empty_scan n xs (i + 1)

  pub vector_empty_slot : Vector A → ℕ
  vector_empty_slot v = if v.max == 0 then 0 else empty_scan v.max v.index 0

  unfoldable pub store : Vector A → ℕ → Option A → Vector A
  store v i val = record v {
    max = if leb v.max i then (i + 1) % u32_mod else v.max;
    index = set v.index i val;
  }

  pub vector_set_index : Vector A → ℕ → Option A → Option (Vector A × ℕ)
  vector_set_index v i val = vector_ensure v i >>= (λ (w : Vector A). some (store w i val, i))

  pub vector_set : Vector A → Option A → Option (Vector A × ℕ)
  vector_set v val =
      let i = vector_empty_slot v in
      vector_ensure v i >>= (λ (w : Vector A). some (store w i val, i))

  pub vector_lookup : Vector A → ℕ → Option (Option A)
  vector_lookup v i = if leb v.max i then some none else vector_slot v i

  pub vector_lookup_ensure : Vector A → ℕ → Option (Vector A × Option A)
  vector_lookup_ensure v i =
      vector_ensure v i >>= (λ (w : Vector A). vector_slot w i >>= (λ (x : Option A). some (w, x)))

  -- `while (i && v->index[--i] == NULL && v->max--)`: the new `max`.
  pub shrink : List (Option A) → ℕ → ℕ → Option ℕ
  shrink index zero max = some max
  shrink index (suc i) max = elim (get_elem? index i) [
    | none ↦ none
    | some o ↦ elim o [
      | some x ↦ some max
      | none ↦ elim max [ zero ↦ some (u32_mod - 1) | suc m ↦ shrink index i m ]
    ]
  ]

  pub unset_last : Vector A → ℕ → Option (Vector A)
  unset_last v i = shrink v.index i (v.max - 1) >>= (λ (m : ℕ). some (record v { max = m }))

  pub vector_unset : Vector A → ℕ → Option (Vector A)
  vector_unset v i =
      if leb v.alloced i
      then some v
      else (let w = record v { index = set v.index i none } in
          if i + 1 == v.max then unset_last w i else some w)

  count_scan : ℕ → List (Option A) → ℕ → ℕ
  count_scan zero xs count = count
  count_scan (suc n) [] count = count
  count_scan (suc n) (none ∷ xs) count = count_scan n xs count
  count_scan (suc n) (some x ∷ xs) count = count_scan n xs (count + 1)

  pub vector_count : Vector A → ℕ
  unfolding count_scan
  vector_count v = count_scan v.max v.index 0

-- What the operations keep: the slots behind `max` hold NULL.
pub record IsVector {A : Type 0} (v : Vector A) : Type 0 where
  pub sized : length v.index ≡ v.alloced
  pub room : 0 < v.alloced
  pub within : v.max ≤ v.alloced
  pub small : v.alloced < 2 ^ 32
  pub cleared : (j : ℕ) → v.max ≤ j → j < v.alloced → vector_slot v j ≡ some none
