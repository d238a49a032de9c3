-- ===== src/ThreadList/Moves.antt =====
-- The lists of threads as sequences.
use mksh.Prelude.{
  ℕ, ◌+◌, ◌-◌, ◌%◌, ◌≡◌, refl, sym, ap, ◌∙◌, Option, none, some, [], ◌∷◌, ◌++◌, arith, length,
  length-append,
}
use mksh.Nodes.{Node, Heap, Ends, ◌>>=◌, ◌>>◌, write, set_next_or_head, set_prev_or_tail}
use mksh.Nodes.Chain.{
  Cells, first, last, node, NotIn, Chain-frame, Chain-append, Apart-sym, Apart-nil, NotIn-split,
  first-append, last-append, Distinct-append,
}
use mksh.Nodes.Link.{
  load-some, set_next-some, set_prev-some, Fronted, set_next_or_head-Fronted, Backed,
  set_prev_or_tail-Backed,
}
use mksh.Nodes.Linked.{
  IsLinked, Joint, IsLinked-Joint, Joint-IsLinked, Filled, Filled-Chain, write-Filled,
  rewrite-Filled,
}
use mksh.ThreadList.{ThreadList, int_mod, thread_list_add, thread_list_delete}

module _ {A : Type 0} where
  pub record Lists (h : Heap A) (l : ThreadList) (xs : Cells A) : Type 0 where
    pub linked : IsLinked h l.ends xs
    pub count : l.count ≡ length xs % int_mod

  -- A run that ends with a list of these cells; `outside` says of which nodes it keeps.
  pub record Moved (h : Heap A) (touched : Cells A) (xs : Cells A)
      (r : Option (ThreadList × Heap A)) : Type 0 where
    pub list : ThreadList
    pub heap : Heap A
    pub run : r ≡ some (list, heap)
    pub lists : Lists heap list xs
    pub off : (c : ℕ) → NotIn c touched → heap c ≡ h c

  -- A run that takes the node `t` out; its value stays and both its links are NULL.
  pub record Taken (h : Heap A) (touched : Cells A) (xs : Cells A) (t : ℕ) (d : A)
      (r : Option (ThreadList × Heap A)) : Type 0 where
    pub moved : Moved h touched xs r
    pub cleared : moved.heap t ≡ some (node none none d)

  -- A thread that is in no list is put at the end.
  pub thread_list_add-Moved :
      (h : Heap A) (l : ThreadList) (xs : Cells A) (t : ℕ) (n : Node A)
      → Lists h l xs
      → h t ≡ some n
      → NotIn t xs
      → Moved h ((t, n.val) ∷ xs) (xs ++ (t, n.val) ∷ []) (thread_list_add l t h)
  thread_list_add-Moved h l xs t n w e nx =
      let n1 : Node A = node none n.prev n.val in
      let k1 : Heap A = write h t (some n1) in
      let f1 : Filled h k1 t n1 = write-Filled h t n1 in
      let n2 : Node A = node none l.ends.tail n.val in
      let k2 : Heap A = write k1 t (some n2) in
      let f2 : Filled h k2 t n2 = rewrite-Filled h k1 t n1 n2 f1 in
      let r : Fronted k2 xs (some t) l.ends (set_next_or_head (last none xs) (some t) l.ends k2) =
        set_next_or_head-Fronted k2 xs none (some t) l.ends
          (Filled-Chain h k2 t n2 xs none none f2 nx w.linked.chain) w.linked.distinct
          w.linked.head in
      let ran : set_next_or_head l.ends.tail (some t) l.ends k2 ≡ some (r.ends, r.heap) =
        ap (λ p. set_next_or_head p (some t) l.ends k2) w.linked.tail ∙ r.run in
      let e' : Ends = record { head = r.ends.head; tail = some t } in
      record {
        list = record { ends = e'; count = (l.count + 1) % int_mod };
        heap = r.heap;
        run =
            unfold thread_list_add in
            rw (set_next-some h t none n e, ◌>>◌, ◌>>=◌)
              (rw (set_prev-some k1 t l.ends.tail n1 f1.here, ◌>>◌, ◌>>=◌) (rw (ran, ◌>>=◌) refl));
        lists = record {
          linked = Joint-IsLinked r.heap e' xs t n.val [] (record {
            head = r.head;
            tail = refl;
            front = r.chain;
            here = r.off t nx ∙ f2.here ∙ ap (λ p. some (node none p n.val)) w.linked.tail;
            back = tt;
            distinct_front = w.linked.distinct;
            distinct_back = tt;
            front_here = nx;
            back_here = tt;
            apart = Apart-nil xs;
          });
          count = omega (arith, w.count, length-append {A = ℕ × A} xs ((t, n.val) ∷ []));
        };
        off = λ c q. r.off c q.1 ∙ f2.off c (λ s. q.0 (sym s));
      }

  -- A thread of the list is taken out, and both its links are cleared.
  pub thread_list_delete-Taken :
      (h : Heap A) (l : ThreadList) (xs : Cells A) (t : ℕ) (d : A) (ys : Cells A)
      → Lists h l (xs ++ (t, d) ∷ ys)
      → Taken h (xs ++ (t, d) ∷ ys) (xs ++ ys) t d (thread_list_delete l t h)
  thread_list_delete-Taken h l xs t d ys w =
      let j : Joint h l.ends xs t d ys = IsLinked-Joint h l.ends xs t d ys w.linked in
      let n : Node A = node (first ys none) (last none xs) d in
      let b : Backed h ys (last none xs) l.ends
          (set_prev_or_tail (first ys none) (last none xs) l.ends h) =
        set_prev_or_tail-Backed h ys (some t) (last none xs) l.ends j.back j.distinct_back j.tail in
      let here1 : b.heap t ≡ some n = b.off t j.back_here ∙ j.here in
      let r : Fronted b.heap xs (first ys none) b.ends
          (set_next_or_head (last none xs) (first ys none) b.ends b.heap) =
        set_next_or_head-Fronted b.heap xs (some t) (first ys none) b.ends
          (Chain-frame h b.heap ys xs none (some t) b.off j.apart j.front) j.distinct_front
          (b.head ∙ j.head) in
      let here2 : r.heap t ≡ some n = r.off t j.front_here ∙ here1 in
      let n3 : Node A = node (first ys none) none d in
      let k3 : Heap A = write r.heap t (some n3) in
      let f3 : Filled r.heap k3 t n3 = write-Filled r.heap t n3 in
      let n4 : Node A = node none none d in
      let k4 : Heap A = write k3 t (some n4) in
      let f4 : Filled r.heap k4 t n4 = rewrite-Filled r.heap k3 t n3 n4 f3 in
      let moved : Moved h (xs ++ (t, d) ∷ ys) (xs ++ ys) (thread_list_delete l t h) = record {
        list = record { ends = r.ends; count = (l.count + (int_mod - 1)) % int_mod };
        heap = k4;
        run =
            unfold thread_list_delete in
            rw (load-some h t n j.here, ◌>>=◌)
              (rw (b.run, ◌>>=◌)
                (rw (load-some b.heap t n here1, ◌>>=◌)
                  (rw (r.run, ◌>>=◌)
                    (rw (set_prev-some r.heap t none n here2, ◌>>◌, ◌>>=◌)
                      (rw (set_next-some k3 t none n3 f3.here, ◌>>◌, ◌>>=◌) refl)))));
        lists = record {
          linked = record {
            head = r.head ∙ sym (first-append xs ys none);
            tail = r.tail ∙ b.tail ∙ sym (last-append none xs ys);
            chain =
                Chain-append k4 none xs ys none
                  (Filled-Chain r.heap k4 t n4 xs none (first ys none) f4 j.front_here r.chain)
                  (Filled-Chain r.heap k4 t n4 ys (last none xs) none f4 j.back_here (
                    Chain-frame b.heap r.heap xs ys (last none xs) none r.off
                      (Apart-sym xs ys j.apart) b.chain));
            distinct = Distinct-append xs ys j.distinct_front j.distinct_back j.apart;
          };
          count =
              omega
                (arith, w.count, length-append xs ys, length-append {A = ℕ × A} xs ((t, d) ∷ ys));
        };
        off = λ c q.
            let (qx, (qt, qy)) = NotIn-split c xs ((t, d) ∷ ys) q in
            f4.off c (λ s. qt (sym s)) ∙ r.off c qx ∙ b.off c qy;
      } in
      record { moved = moved; cleared = f4.here }
