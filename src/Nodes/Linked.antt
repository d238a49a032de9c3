-- ===== src/Nodes/Linked.antt =====
-- A whole doubly linked list between its two ends, and its joints.
use mksh.Prelude.{ℕ, ◌≡◌, ◌≢◌, refl, sym, ◌∙◌, none, some, [], ◌∷◌, ◌++◌}
use mksh.Nodes.{Ptr, Node, Heap, Ends, write}
use mksh.Nodes.Chain.{
  Cells, first, last, node, Chain, NotIn, Distinct, Apart, write_self, write_ne, Chain-append,
  Chain-split, first-append, last-append, Distinct-split, Distinct-append, Apart-cell, Apart-split,
}

module _ {A : Type 0} where
  pub record IsLinked (h : Heap A) (e : Ends) (xs : Cells A) : Type 0 where
    pub head : e.head ≡ first xs none
    pub tail : e.tail ≡ last none xs
    pub chain : Chain h none xs none
    pub distinct : Distinct xs

  -- A list as the cells in front of one of its cells, the cell, and those behind it.
  pub record Joint (h : Heap A) (e : Ends) (xs : Cells A) (a : ℕ) (d : A) (ys : Cells A)
      : Type 0 where
    pub head : e.head ≡ first xs (some a)
    pub tail : e.tail ≡ last (some a) ys
    pub front : Chain h none xs (some a)
    pub here : h a ≡ some (node (first ys none) (last none xs) d)
    pub back : Chain h (some a) ys none
    pub distinct_front : Distinct xs
    pub distinct_back : Distinct ys
    pub front_here : NotIn a xs
    pub back_here : NotIn a ys
    pub apart : Apart xs ys

  pub IsLinked-Joint :
      (h : Heap A) (e : Ends) (xs : Cells A) (a : ℕ) (d : A) (ys : Cells A)
      → IsLinked h e (xs ++ (a, d) ∷ ys)
      → Joint h e xs a d ys
  IsLinked-Joint h e xs a d ys w =
      let (front, (here, back)) = Chain-split h none xs ((a, d) ∷ ys) none w.chain in
      let (l, r, p) = Distinct-split xs ((a, d) ∷ ys) w.distinct in
      let (n, q) = Apart-split xs a d ys p in
      record {
        head = w.head ∙ first-append xs ((a, d) ∷ ys) none;
        tail = w.tail ∙ last-append none xs ((a, d) ∷ ys);
        front = front;
        here = here;
        back = back;
        distinct_front = l;
        distinct_back = r.1;
        front_here = n;
        back_here = r.0;
        apart = q;
      }

  pub Joint-IsLinked :
      (h : Heap A) (e : Ends) (xs : Cells A) (a : ℕ) (d : A) (ys : Cells A)
      → Joint h e xs a d ys
      → IsLinked h e (xs ++ (a, d) ∷ ys)
  Joint-IsLinked h e xs a d ys j = record {
    head = j.head ∙ sym (first-append xs ((a, d) ∷ ys) none);
    tail = j.tail ∙ sym (last-append none xs ((a, d) ∷ ys));
    chain = Chain-append h none xs ((a, d) ∷ ys) none j.front (j.here, j.back);
    distinct =
        Distinct-append xs ((a, d) ∷ ys) j.distinct_front (j.back_here, j.distinct_back)
          (Apart-cell xs a d ys j.front_here j.apart);
  }

  -- The heap `k` is `h` with the node `n` at the address.
  pub record Filled (h k : Heap A) (a : ℕ) (n : Node A) : Type 0 where
    pub here : k a ≡ some n
    pub off : (c : ℕ) → a ≢ c → k c ≡ h c

  pub Filled-self : (h : Heap A) (a : ℕ) (n : Node A) → h a ≡ some n → Filled h h a n
  Filled-self h a n e = record { here = e; off = λ c k. refl }

  pub write-Filled : (h : Heap A) (a : ℕ) (n : Node A) → Filled h (write h a (some n)) a n
  write-Filled h a n = record {
    here = write_self h a (some n);
    off = λ c k. write_ne h a c (some n) k;
  }

  pub rewrite-Filled :
      (h k : Heap A) (a : ℕ) (n m : Node A) → Filled h k a n → Filled h (write k a (some m)) a m
  rewrite-Filled h k a n m f = record {
    here = write_self k a (some m);
    off = λ c e. write_ne k a c (some m) e ∙ f.off c e;
  }

  pub Filled-Chain :
      (h k : Heap A) (a : ℕ) (n : Node A) (xs : Cells A) (pv nx : Ptr)
      → Filled h k a n
      → NotIn a xs
      → Chain h pv xs nx
      → Chain k pv xs nx
  Filled-Chain h k a n [] pv nx f m c = tt
  Filled-Chain h k a n ((b, d) ∷ xs) pv nx f (ne, m) (e, c) =
      (f.off b ne ∙ e, Filled-Chain h k a n xs (some b) nx f m c)
