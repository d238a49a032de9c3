-- ===== src/Nodes/Link.antt =====
-- The writes to the neighbours of a node that is linked in or taken out.
use mksh.Prelude.{ℕ, ◌≡◌, ◌≢◌, refl, sym, ◌∙◌, Option, none, some, [], ◌∷◌}
use mksh.Nodes.{
  Ptr, Node, Heap, Ends, write, ◌>>=◌, ◌>>◌, load, store, set_next, set_prev, set_next_or_head,
  set_prev_or_tail,
}
use mksh.Nodes.Chain.{
  Cells, first, last, node, Chain, NotIn, Distinct, SameOff, write_self, write_ne, Chain-write,
}

module _ {A : Type 0} where
  pub load-some : (h : Heap A) (a : ℕ) (n : Node A) → h a ≡ some n → load a h ≡ some (n, h)
  unfolding load
  load-some h a n e = rw (e, load) refl

  pub set_next-some :
      (h : Heap A) (a : ℕ) (q : Ptr) (n : Node A)
      → h a ≡ some n
      → set_next a q h ≡ some (tt, write h a (some (record n { next = q })))
  unfolding set_next store
  set_next-some h a q n e = rw (load-some h a n e, set_next, ◌>>=◌) refl

  pub set_prev-some :
      (h : Heap A) (a : ℕ) (q : Ptr) (n : Node A)
      → h a ≡ some n
      → set_prev a q h ≡ some (tt, write h a (some (record n { prev = q })))
  unfolding set_prev store
  set_prev-some h a q n e = rw (load-some h a n e, set_prev, ◌>>=◌) refl

  -- The last cell of a stretch, and the stretch behind a write to its `next`.
  record LastCell (h : Heap A) (q : Ptr) (pv : Ptr) (a : ℕ) (xs : Cells A) (d : A) : Type 0 where
    b : ℕ
    n : Node A
    eq : last (some a) xs ≡ some b
    there : h b ≡ some n
    outside : (c : ℕ) → NotIn c ((a, d) ∷ xs) → b ≢ c
    chain : Chain (write h b (some (record n { next = q }))) pv ((a, d) ∷ xs) q

  last_cell :
      (h : Heap A) (q pv nx : Ptr) (a : ℕ) (d : A) (xs : Cells A)
      → Chain h pv ((a, d) ∷ xs) nx
      → Distinct ((a, d) ∷ xs)
      → LastCell h q pv a xs d
  last_cell h q pv nx a d [] (e, c) m = record {
    b = a;
    n = node nx pv d;
    eq = refl;
    there = e;
    outside = λ c k s. k.0 (sym s);
    chain = (write_self h a (some (node q pv d)), tt);
  }
  last_cell h q pv nx a d ((a', d') ∷ xs) (e, c) (m, dd) =
      let r = last_cell h q (some a) nx a' d' xs c dd in
      record {
        b = r.b;
        n = r.n;
        eq = r.eq;
        there = r.there;
        outside = λ c k. r.outside c k.1;
        chain = (write_ne h r.b a (some (record r.n { next = q })) (r.outside a m) ∙ e, r.chain);
      }

  pub record Fronted (h : Heap A) (xs : Cells A) (q : Ptr) (l : Ends) (r : Option (Ends × Heap A))
      : Type 0 where
    pub ends : Ends
    pub heap : Heap A
    pub run : r ≡ some (ends, heap)
    pub chain : Chain heap none xs q
    pub off : SameOff h heap xs
    pub head : ends.head ≡ first xs q
    pub tail : ends.tail ≡ l.tail

  -- The cells in front of a node are given another pointer behind them.
  pub set_next_or_head-Fronted :
      (h : Heap A) (xs : Cells A) (nx q : Ptr) (l : Ends)
      → Chain h none xs nx
      → Distinct xs
      → l.head ≡ first xs nx
      → Fronted h xs q l (set_next_or_head (last none xs) q l h)
  unfolding set_next_or_head
  set_next_or_head-Fronted h [] nx q l c d e = record {
    ends = record l { head = q };
    heap = h;
    run = refl;
    chain = tt;
    off = λ c k. refl;
    head = refl;
    tail = refl;
  }
  set_next_or_head-Fronted h ((a, d) ∷ xs) nx q l c m e =
      let r = last_cell h q none nx a d xs c m in
      record {
        ends = l;
        heap = write h r.b (some (record r.n { next = q }));
        run =
            rw (r.eq, set_next_or_head) (rw (set_next-some h r.b q r.n r.there, ◌>>◌, ◌>>=◌) refl);
        chain = r.chain;
        off = λ c k. write_ne h r.b c (some (record r.n { next = q })) (r.outside c k);
        head = e;
        tail = refl;
      }

  pub record Backed (h : Heap A) (ys : Cells A) (q : Ptr) (l : Ends) (r : Option (Ends × Heap A))
      : Type 0 where
    pub ends : Ends
    pub heap : Heap A
    pub run : r ≡ some (ends, heap)
    pub chain : Chain heap q ys none
    pub off : SameOff h heap ys
    pub tail : ends.tail ≡ last q ys
    pub head : ends.head ≡ l.head

  -- The cells behind a node are given another pointer in front of them.
  pub set_prev_or_tail-Backed :
      (h : Heap A) (ys : Cells A) (pv q : Ptr) (l : Ends)
      → Chain h pv ys none
      → Distinct ys
      → l.tail ≡ last pv ys
      → Backed h ys q l (set_prev_or_tail (first ys none) q l h)
  unfolding set_prev_or_tail
  set_prev_or_tail-Backed h [] pv q l c d e = record {
    ends = record l { tail = q };
    heap = h;
    run = refl;
    chain = tt;
    off = λ c k. refl;
    tail = refl;
    head = refl;
  }
  set_prev_or_tail-Backed h ((a, d) ∷ ys) pv q l (c, cs) (m, ms) e = record {
    ends = l;
    heap = write h a (some (node (first ys none) q d));
    run =
        rw (set_prev-some h a q (node (first ys none) pv d) c, set_prev_or_tail, ◌>>◌, ◌>>=◌) refl;
    chain = (
      write_self h a (some (node (first ys none) q d)),
      Chain-write h a (some (node (first ys none) q d)) ys (some a) none m cs,
    );
    off = λ c k. write_ne h a c (some (node (first ys none) q d)) (λ s. k.0 (sym s));
    tail = e;
    head = refl;
  }
