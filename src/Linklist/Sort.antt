-- ===== src/Linklist/Sort.antt =====
-- linklist.c: `listnode_add_sort` as an insertion into a sequence.
use mksh.Prelude.{
  ℕ, zero, suc, ◌%◌, ◌<◌, ◌≡◌, refl, sym, ap, ◌∙◌, inl, inr, Bool, true, false, Option, none, some,
  [], ◌∷◌, ◌++◌, append-nil, arith, if◌then◌else◌, length, length-append, Bool-cases,
}
use mathlib.Core.Path.{subst}
use mksh.Nodes.{Ptr, Node, Heap, ◌>>=◌, write, store}
use mksh.Nodes.Chain.{Cells, first, node, Chain, NotIn, Chain-NotIn}
use mksh.Nodes.Link.{load-some}
use mksh.Nodes.Linked.{IsLinked, Joint-IsLinked, Filled, Filled-Chain, write-Filled}
use mksh.Linklist.{
  LinkList, u32_mod, increment, listnode_new, find_above, place, insert_at, listnode_add_sort,
}
use mksh.Linklist.Insert.{Inserted, insert_at-Inserted}

module _ {A : Type 0} where
  -- A `struct list` and its nodes as the sequence of their addresses and values.
  pub record IsList (h : Heap A) (l : LinkList A) (xs : Cells A) : Type 0 where
    pub linked : IsLinked h l.ends xs
    pub count : l.count ≡ length xs % u32_mod

  -- The cell stands in front of the first one whose value is above its own.
  unfoldable pub insert_cell : (A → A → Bool) → ℕ × A → Cells A → Cells A
  insert_cell less (new, val) [] = (new, val) ∷ []
  insert_cell less (new, val) ((a, d) ∷ xs) =
      if less val d then (new, val) ∷ (a, d) ∷ xs else (a, d) ∷ insert_cell less (new, val) xs

  -- With no order it stands at the end.
  pub add_cell : Option (A → A → Bool) → ℕ × A → Cells A → Cells A
  unfolding insert_cell
  add_cell none c xs = xs ++ c ∷ []
  add_cell (some less) c xs = insert_cell less c xs

  below : (A → A → Bool) → A → Cells A → Cells A
  below less val [] = []
  below less val ((a, d) ∷ xs) = if less val d then [] else (a, d) ∷ below less val xs

  above : (A → A → Bool) → A → Cells A → Cells A
  above less val [] = []
  above less val ((a, d) ∷ xs) = if less val d then (a, d) ∷ xs else above less val xs

  below-above :
      (less : A → A → Bool) (val : A) (xs : Cells A) → below less val xs ++ above less val xs ≡ xs
  unfolding below above
  below-above less val [] = refl
  below-above less val ((a, d) ∷ xs) = elim (Bool-cases (less val d)) [
    | inl b ↦ rw b refl
    | inr b ↦ rw b (ap (λ t. (a, d) ∷ t) (below-above less val xs))
  ]

  insert_cell-split :
      (less : A → A → Bool) (new : ℕ) (val : A) (xs : Cells A)
      → insert_cell less (new, val) xs ≡ below less val xs ++ (new, val) ∷ above less val xs
  unfolding insert_cell below above
  insert_cell-split less new val [] = refl
  insert_cell-split less new val ((a, d) ∷ xs) = elim (Bool-cases (less val d)) [
    | inl b ↦ rw b refl
    | inr b ↦ rw b (ap (λ t. (a, d) ∷ t) (insert_cell-split less new val xs))
  ]

  module _ (less : A → A → Bool) (val : A) where
    above-hit :
        (a : ℕ) (d : A) (xs : Cells A)
        → less val d ≡ true
        → above less val ((a, d) ∷ xs) ≡ (a, d) ∷ xs
    unfolding above
    above-hit a d xs b = rw b refl

    above-miss :
        (a : ℕ) (d : A) (xs : Cells A)
        → less val d ≡ false
        → above less val ((a, d) ∷ xs) ≡ above less val xs
    unfolding above
    above-miss a d xs b = rw b refl

    find_above-hit :
        (fuel : ℕ) (h : Heap A) (a : ℕ) (n : Node A)
        → h a ≡ some n
        → less val n.val ≡ true
        → find_above less val (suc fuel) (some a) h ≡ some (some a, h)
    unfolding find_above
    find_above-hit fuel h a n e b = rw (load-some h a n e, ◌>>=◌) (rw b refl)

    find_above-miss :
        (fuel : ℕ) (h : Heap A) (a : ℕ) (n : Node A)
        → h a ≡ some n
        → less val n.val ≡ false
        → find_above less val (suc fuel) (some a) h ≡ find_above less val fuel n.next h
    unfolding find_above
    find_above-miss fuel h a n e b = rw (load-some h a n e, ◌>>=◌) (rw b refl)

    find_above-end :
        (fuel : ℕ) (h : Heap A) → find_above less val (suc fuel) none h ≡ some (none, h)
    unfolding find_above
    find_above-end fuel h = refl

    -- The walk from the first node ends at the first cell above the value, if the fuel is enough.
    find_above-above :
        (fuel : ℕ) (h : Heap A) (pv : Ptr) (xs : Cells A)
        → length xs < fuel
        → Chain h pv xs none
        → find_above less val fuel (first xs none) h ≡ some (first (above less val xs) none, h)
    find_above-above zero h pv xs f c = absurd (omega arith)
    find_above-above (suc fuel) h pv [] f c = find_above-end fuel h ∙ unfold above in refl
    find_above-above (suc fuel) h pv ((a, d) ∷ xs) f (e, c) = elim (Bool-cases (less val d)) [
      | inl b ↦ rw (above-hit a d xs b) (find_above-hit fuel h a (node (first xs none) pv d) e b)
      | inr b ↦ rw (above-miss a d xs b) (
          find_above-miss fuel h a (node (first xs none) pv d) e b
          ∙ find_above-above fuel h (some a) xs (omega arith) c)
    ]

  abbrev Placed : Option (A → A → Bool) → A → Cells A → Cells A → Cells A → Type 0
  Placed cmp val xs front back =
      (xs ≡ front ++ back) × ((new : ℕ) → add_cell cmp (new, val) xs ≡ front ++ (new, val) ∷ back)

  -- Where the walk ends.
  place-Placed :
      (cmp : Option (A → A → Bool)) (val : A) (fuel : ℕ) (h : Heap A) (xs : Cells A)
      → length xs < fuel
      → Chain h none xs none
      → (front back : Cells A) × Placed cmp val xs front back
        × (place fuel cmp val (first xs none) h ≡ some (first back none, h))
  unfolding place add_cell
  place-Placed none val fuel h xs f c = (xs, [], (sym (append-nil xs), λ new. refl), refl)
  place-Placed (some less) val fuel h xs f c = (
    below less val xs,
    above less val xs,
    (sym (below-above less val xs), λ new. insert_cell-split less new val xs),
    find_above-above less val fuel h none xs f c,
  )

  -- A run that ends, with a list of these cells.
  abbrev pub Gives : (LinkList A → Heap A → Type 0) → Option (LinkList A × Heap A) → Type 0
  Gives P r = (l : LinkList A) × (h : Heap A) × (r ≡ some (l, h)) × P l h

  Inserted-Gives :
      (h : Heap A) (l : LinkList A) (xs ys : Cells A) (new : ℕ) (d : A)
      (r : Option (LinkList A × Heap A))
      → IsList h l (xs ++ ys)
      → Inserted h l xs new d ys r
      → Gives (λ m k. IsList k m (xs ++ (new, d) ∷ ys) × (m.cmp ≡ l.cmp) × (m.del ≡ l.del)) r
  unfolding increment
  Inserted-Gives h l xs ys new d r w i = (
    increment (record l { ends = i.ends }),
    i.heap,
    i.run,
    (
      record {
        linked = Joint-IsLinked i.heap i.ends xs new d ys i.joint;
        count =
            omega
              (arith, w.count, length-append xs ys, length-append {A = ℕ × A} xs ((new, d) ∷ ys));
      },
      refl,
      refl,
    ),
  )

  add_sort-step :
      (fuel new : ℕ) (l : LinkList A) (val : A) (h : Heap A) (p : Ptr)
      → place fuel l.cmp val l.ends.head (write h new (some (node none none val)))
        ≡ some (p, write h new (some (node none none val)))
      → listnode_add_sort fuel new l val h
        ≡ insert_at new l p (write h new (some (node none none val)))
  unfolding listnode_add_sort listnode_new store
  add_sort-step fuel new l val h p e = rw (e, ◌>>=◌) refl

  -- On a list of fewer nodes than the fuel, with an address that holds no node, `listnode_add_sort`
  -- returns. The list then holds the old nodes in their order and the new one: in front of the first
  -- whose value is above its own by `cmp`, or last if there is no `cmp` or no such node. The count
  -- grows by one, modulo 2 ^ 32, and `cmp` and `del` stay.
  pub listnode_add_sort-IsList :
      (fuel new : ℕ) (l : LinkList A) (val : A) (h : Heap A) (xs : Cells A)
      → IsList h l xs
      → h new ≡ none
      → length xs < fuel
      → Gives
          (λ m k. IsList k m (add_cell l.cmp (new, val) xs) × (m.cmp ≡ l.cmp) × (m.del ≡ l.del))
          (listnode_add_sort fuel new l val h)
  listnode_add_sort-IsList fuel new l val h xs w e f =
      let k : Heap A = write h new (some (node none none val)) in
      let fresh : NotIn new xs = Chain-NotIn h new none none xs e w.linked.chain in
      let filled : Filled h k new (node none none val) = write-Filled h new (node none none val) in
      let (front, back, placed, ran) =
        place-Placed l.cmp val fuel k xs f
          (Filled-Chain h k new (node none none val) xs none none filled fresh w.linked.chain) in
      let (parts, added) : Placed l.cmp val xs front back = placed in
      let whole : IsList h l (front ++ back) = subst (λ zs. IsList h l zs) parts w in
      let apart : NotIn new (front ++ back) = subst (λ zs. NotIn new zs) parts fresh in
      rw
        (add_sort-step fuel new l val h (first back none)
          (ap (λ p. place fuel l.cmp val p k) w.linked.head ∙ ran))
        (subst
          (λ zs.
            Gives (λ m j. IsList j m zs × (m.cmp ≡ l.cmp) × (m.del ≡ l.del))
              (insert_at new l (first back none) k))
          (sym (added new))
          (Inserted-Gives h l front back new val (insert_at new l (first back none) k) whole
            (insert_at-Inserted h k l new val front back filled whole.linked apart)))
