-- ===== src/Linklist/Find.antt =====
-- linklist.c: `listnode_lookup`, and `listnode_delete` as a removal from a sequence.
use mksh.Prelude.{
  ℕ, zero, suc, ◌<◌, ◌≡◌, refl, sym, ap, ◌∙◌, inl, inr, Bool, true, false, none, some, [], ◌∷◌,
  ◌++◌, arith, if◌then◌else◌, length, Bool-cases,
}
use mathlib.Core.Path.{subst}
use mksh.Nodes.{Ptr, Node, Heap, ◌>>=◌}
use mksh.Nodes.Chain.{Cells, first, node, Chain}
use mksh.Nodes.Link.{load-some}
use mksh.Linklist.{LinkList, find_node, delete_found, listnode_delete, listnode_lookup}
use mksh.Linklist.Sort.{IsList, Gives}
use mksh.Linklist.Delete.{list_delete_node-IsList}

module _ {A : Type 0} where
  -- The first cell with the value goes.
  pub remove_cell : (A → A → Bool) → A → Cells A → Cells A
  remove_cell same val [] = []
  remove_cell same val ((a, d) ∷ xs) = if same d val then xs else (a, d) ∷ remove_cell same val xs

  -- The address of the first cell with the value.
  pub lookup_cell : (A → A → Bool) → A → Cells A → Ptr
  lookup_cell same val [] = none
  lookup_cell same val ((a, d) ∷ xs) = if same d val then some a else lookup_cell same val xs

module _ {A : Type 0} (same : A → A → Bool) (val : A) where
  find-hit :
      (fuel : ℕ) (h : Heap A) (a : ℕ) (n : Node A)
      → h a ≡ some n
      → same n.val val ≡ true
      → find_node same val (suc fuel) (some a) h ≡ some (some a, h)
  unfolding find_node
  find-hit fuel h a n e b = rw (load-some h a n e, ◌>>=◌) (rw b refl)

  find-miss :
      (fuel : ℕ) (h : Heap A) (a : ℕ) (n : Node A)
      → h a ≡ some n
      → same n.val val ≡ false
      → find_node same val (suc fuel) (some a) h ≡ find_node same val fuel n.next h
  unfolding find_node
  find-miss fuel h a n e b = rw (load-some h a n e, ◌>>=◌) (rw b refl)

  find-end : (fuel : ℕ) (h : Heap A) → find_node same val (suc fuel) none h ≡ some (none, h)
  unfolding find_node
  find-end fuel h = refl

  find_node-lookup_cell :
      (fuel : ℕ) (h : Heap A) (pv : Ptr) (xs : Cells A)
      → length xs < fuel
      → Chain h pv xs none
      → find_node same val fuel (first xs none) h ≡ some (lookup_cell same val xs, h)
  unfolding lookup_cell
  find_node-lookup_cell zero h pv xs f c = absurd (omega arith)
  find_node-lookup_cell (suc fuel) h pv [] f c = find-end fuel h
  find_node-lookup_cell (suc fuel) h pv ((a, d) ∷ xs) f (e, c) = elim (Bool-cases (same d val)) [
    | inl b ↦ rw b (find-hit fuel h a (node (first xs none) pv d) e b)
    | inr b ↦ rw b (
        find-miss fuel h a (node (first xs none) pv d) e b
        ∙ find_node-lookup_cell fuel h (some a) xs (omega arith) c)
  ]

  -- Where the value is first met.
  data Met (xs : Cells A) : Type 0 where
    nowhere : lookup_cell same val xs ≡ none → remove_cell same val xs ≡ xs → Met xs
    met :
        (front : Cells A) (a : ℕ) (d : A) (back : Cells A)
        → xs ≡ front ++ (a, d) ∷ back
        → lookup_cell same val xs ≡ some a
        → remove_cell same val xs ≡ front ++ back
        → Met xs

  Met-later : (a : ℕ) (d : A) (xs : Cells A) → same d val ≡ false → Met xs → Met ((a, d) ∷ xs)
  unfolding lookup_cell remove_cell
  Met-later a d xs b (nowhere e r) = nowhere (rw b e) (rw b (ap (λ t. (a, d) ∷ t) r))
  Met-later a d xs b (met front a' d' back s e r) =
      met ((a, d) ∷ front) a' d' back (ap (λ t. (a, d) ∷ t) s) (rw b e)
        (rw b (ap (λ t. (a, d) ∷ t) r))

  Met-cases : (xs : Cells A) → Met xs
  unfolding lookup_cell remove_cell
  Met-cases [] = nowhere refl refl
  Met-cases ((a, d) ∷ xs) = elim (Bool-cases (same d val)) [
    | inl b ↦ met [] a d xs refl (rw b refl) (rw b refl)
    | inr b ↦ Met-later a d xs b (Met-cases xs)
  ]

  delete-step :
      (fuel : ℕ) (l : LinkList A) (h : Heap A) (p : Ptr)
      → find_node same val fuel l.ends.head h ≡ some (p, h)
      → listnode_delete same fuel l val h ≡ delete_found l p h
  unfolding listnode_delete
  delete-step fuel l h p e = rw (e, ◌>>=◌) refl

  -- On a list of fewer nodes than the fuel, `listnode_lookup` returns the first node with the value and
  -- changes nothing, and `listnode_delete` returns: the list then holds the old nodes without that one,
  -- in their order, with the count that fits, and `cmp` and `del` stay.
  pub listnode_delete-IsList :
      (fuel : ℕ) (l : LinkList A) (h : Heap A) (xs : Cells A)
      → IsList h l xs
      → length xs < fuel
      → (listnode_lookup same fuel l val h ≡ some (lookup_cell same val xs, h))
        × Gives
            (λ m k. IsList k m (remove_cell same val xs) × (m.cmp ≡ l.cmp) × (m.del ≡ l.del))
            (listnode_delete same fuel l val h)
  listnode_delete-IsList fuel l h xs w f = (unfold listnode_lookup in walk, deleted (Met-cases xs))
    where
      walk : find_node same val fuel l.ends.head h ≡ some (lookup_cell same val xs, h)
      walk =
          ap (λ p. find_node same val fuel p h) w.linked.head
          ∙ find_node-lookup_cell fuel h none xs f w.linked.chain

      deleted :
          Met xs
          → Gives
              (λ m k. IsList k m (remove_cell same val xs) × (m.cmp ≡ l.cmp) × (m.del ≡ l.del))
              (listnode_delete same fuel l val h)
      deleted (nowhere e r) =
          rw (delete-step fuel l h none (walk ∙ ap (λ p. some (p, h)) e))
            (l, h, unfold delete_found in refl, (subst (λ zs. IsList h l zs) (sym r) w, refl, refl))
      deleted (met front a d back s e r) =
          let (m, k, ran, (list, gone, c, dl)) =
            list_delete_node-IsList h l front a d back (subst (λ zs. IsList h l zs) s w) in
          rw (delete-step fuel l h (some a) (walk ∙ ap (λ p. some (p, h)) e))
            (m, k, unfold delete_found in ran, (subst (λ zs. IsList k m zs) (sym r) list, c, dl))
