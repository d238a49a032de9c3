-- ===== src/Nodes/Chain.antt =====
-- Chains of linked nodes: what a stretch of a list looks like on the heap.
use mksh.Prelude.{
  none, ap, ℕ, ◌≡◌, ◌≢◌, refl, sym, ◌∙◌, Option, some, List, [], ◌∷◌, ◌++◌, ne→==, ==_refl,
}
use mksh.Nodes.{Ptr, Node, Heap, write}

abbrev pub Cells : Type 0 → Type 0
Cells A = List (ℕ × A)

module _ {A : Type 0} where
  -- The address of the first cell, or what comes behind the cells.
  abbrev pub first : Cells A → Ptr → Ptr
  first [] nx = nx
  first ((a, d) ∷ xs) nx = some a

  -- The address of the last cell, or what comes in front of the cells.
  abbrev pub last : Ptr → Cells A → Ptr
  last pv [] = pv
  last pv ((a, d) ∷ xs) = last (some a) xs

  abbrev pub node : Ptr → Ptr → A → Node A
  node nx pv d = record { next = nx; prev = pv; val = d }

  -- The cells stand on the heap, linked in order, between the pointers `pv` and `nx`.
  abbrev pub Chain : Heap A → Ptr → Cells A → Ptr → Type 0
  Chain h pv [] nx = Unit {0}
  Chain h pv ((a, d) ∷ xs) nx = (h a ≡ some (node (first xs nx) pv d)) × Chain h (some a) xs nx

  abbrev pub NotIn : ℕ → Cells A → Type 0
  NotIn a [] = Unit {0}
  NotIn a ((b, d) ∷ xs) = (a ≢ b) × NotIn a xs

  abbrev pub Distinct : Cells A → Type 0
  Distinct [] = Unit {0}
  Distinct ((a, d) ∷ xs) = NotIn a xs × Distinct xs

  -- No address of `xs` is one of `ys`.
  abbrev pub Apart : Cells A → Cells A → Type 0
  Apart [] ys = Unit {0}
  Apart ((a, d) ∷ xs) ys = NotIn a ys × Apart xs ys

  -- The heaps agree outside the cells.
  abbrev pub SameOff : Heap A → Heap A → Cells A → Type 0
  SameOff h k xs = (c : ℕ) → NotIn c xs → k c ≡ h c

  pub write_self : (h : Heap A) (a : ℕ) (n : Option (Node A)) → write h a n a ≡ n
  unfolding write
  write_self h a n = rw (==_refl a) refl

  pub write_ne : (h : Heap A) (a b : ℕ) (n : Option (Node A)) → a ≢ b → write h a n b ≡ h b
  unfolding write
  write_ne h a b n e = rw (ne→== a b e) refl

  pub Chain-frame :
      (h k : Heap A) (ys xs : Cells A) (pv nx : Ptr)
      → SameOff h k ys
      → Apart xs ys
      → Chain h pv xs nx
      → Chain k pv xs nx
  Chain-frame h k ys [] pv nx f d c = tt
  Chain-frame h k ys ((a, d) ∷ xs) pv nx f (n, ap') (e, c) =
      (f a n ∙ e, Chain-frame h k ys xs (some a) nx f ap' c)

  pub Chain-write :
      (h : Heap A) (a : ℕ) (n : Option (Node A)) (xs : Cells A) (pv nx : Ptr)
      → NotIn a xs
      → Chain h pv xs nx
      → Chain (write h a n) pv xs nx
  Chain-write h a n [] pv nx m c = tt
  Chain-write h a n ((b, d) ∷ xs) pv nx (ne, m) (e, c) =
      (write_ne h a b n ne ∙ e, Chain-write h a n xs (some b) nx m c)

  pub first-append : (xs ys : Cells A) (nx : Ptr) → first (xs ++ ys) nx ≡ first xs (first ys nx)
  first-append [] ys nx = refl
  first-append ((a, d) ∷ xs) ys nx = refl

  pub last-append : (pv : Ptr) (xs ys : Cells A) → last pv (xs ++ ys) ≡ last (last pv xs) ys
  last-append pv [] ys = refl
  last-append pv ((a, d) ∷ xs) ys = last-append (some a) xs ys

  pub Chain-append :
      (h : Heap A) (pv : Ptr) (xs ys : Cells A) (nx : Ptr)
      → Chain h pv xs (first ys nx)
      → Chain h (last pv xs) ys nx
      → Chain h pv (xs ++ ys) nx
  Chain-append h pv [] ys nx c k = k
  Chain-append h pv ((a, d) ∷ xs) ys nx (e, c) k =
      (rw (first-append xs ys nx) e, Chain-append h (some a) xs ys nx c k)

  pub Chain-split :
      (h : Heap A) (pv : Ptr) (xs ys : Cells A) (nx : Ptr)
      → Chain h pv (xs ++ ys) nx
      → Chain h pv xs (first ys nx) × Chain h (last pv xs) ys nx
  Chain-split h pv [] ys nx c = (tt, c)
  Chain-split h pv ((a, d) ∷ xs) ys nx (e, c) =
      let (l, r) = Chain-split h (some a) xs ys nx c in ((rw (first-append xs ys nx) at e, l), r)

  pub NotIn-append : (a : ℕ) (xs ys : Cells A) → NotIn a xs → NotIn a ys → NotIn a (xs ++ ys)
  NotIn-append a [] ys m n = n
  NotIn-append a ((b, d) ∷ xs) ys (e, m) n = (e, NotIn-append a xs ys m n)

  pub NotIn-split : (a : ℕ) (xs ys : Cells A) → NotIn a (xs ++ ys) → NotIn a xs × NotIn a ys
  NotIn-split a [] ys n = (tt, n)
  NotIn-split a ((b, d) ∷ xs) ys (e, m) = let (l, r) = NotIn-split a xs ys m in ((e, l), r)

  pub Distinct-append :
      (xs ys : Cells A) → Distinct xs → Distinct ys → Apart xs ys → Distinct (xs ++ ys)
  Distinct-append [] ys d e p = e
  Distinct-append ((a, v) ∷ xs) ys (n, d) e (m, p) =
      (NotIn-append a xs ys n m, Distinct-append xs ys d e p)

  pub Distinct-split :
      (xs ys : Cells A) → Distinct (xs ++ ys) → Distinct xs × Distinct ys × Apart xs ys
  Distinct-split [] ys d = (tt, d, tt)
  Distinct-split ((a, v) ∷ xs) ys (n, d) =
      let (l, r, p) = Distinct-split xs ys d in
      let (m, k) = NotIn-split a xs ys n in ((m, l), r, (k, p))

  pub Apart-cell :
      (xs : Cells A) (b : ℕ) (v : A) (ys : Cells A)
      → NotIn b xs
      → Apart xs ys
      → Apart xs ((b, v) ∷ ys)
  Apart-cell [] b v ys n p = tt
  Apart-cell ((a, d) ∷ xs) b v ys (e, n) (m, p) = ((λ q. e (sym q), m), Apart-cell xs b v ys n p)

  pub Apart-nil : (xs : Cells A) → Apart xs []
  Apart-nil [] = tt
  Apart-nil ((a, d) ∷ xs) = (tt, Apart-nil xs)

  pub Apart-split :
      (xs : Cells A) (b : ℕ) (v : A) (ys : Cells A)
      → Apart xs ((b, v) ∷ ys)
      → NotIn b xs × Apart xs ys
  Apart-split [] b v ys p = (tt, tt)
  Apart-split ((a, d) ∷ xs) b v ys ((e, m), p) =
      let (n, q) = Apart-split xs b v ys p in ((λ r. e (sym r), n), (m, q))

  pub Apart-sym : (xs ys : Cells A) → Apart xs ys → Apart ys xs
  Apart-sym xs [] p = tt
  Apart-sym xs ((b, v) ∷ ys) p = let (n, q) = Apart-split xs b v ys p in (n, Apart-sym xs ys q)

  -- An address with no node is none of the cells'.
  pub Chain-NotIn :
      (h : Heap A) (a : ℕ) (pv nx : Ptr) (xs : Cells A) → h a ≡ none → Chain h pv xs nx → NotIn a xs
  Chain-NotIn h a pv nx [] e c = tt
  Chain-NotIn h a pv nx ((b, d) ∷ xs) e (k, c) =
      (λ s. some-not-none (sym k ∙ ap h (sym s) ∙ e), Chain-NotIn h a (some b) nx xs e c)
    where
      some-not-none : {n : Node A} → some n ≢ none
      some-not-none {n} q = cc
