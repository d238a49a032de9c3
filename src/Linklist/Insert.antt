-- ===== src/Linklist/Insert.antt =====
-- Insertions between two nodes and at the end.
use mksh.Prelude.{ℕ, ◌≡◌, ◌≢◌, refl, sym, ap, ◌∙◌, Option, none, some, [], ◌∷◌, ◌++◌, append-nil}
use mksh.Nodes.{Node, Heap, Ends, ◌>>=◌, ◌>>◌, write, set_next_or_head}
use mksh.Nodes.Chain.{
  Cells, first, last, node, NotIn, write_self, write_ne, Chain-write, Chain-frame, Apart-sym,
  Apart-cell, Apart-nil, NotIn-split,
}
use mksh.Nodes.Link.{load-some, set_next-some, set_prev-some, Fronted, set_next_or_head-Fronted}
use mksh.Nodes.Linked.{IsLinked, IsLinked-Joint, Joint, Filled, Filled-Chain, rewrite-Filled}
use mksh.Linklist.{LinkList, increment, insert_before, insert_last, insert_at}

module _ {A : Type 0} where
  -- A run that puts the node `new` with the value `d` between the cells of the list.
  pub record Inserted (h : Heap A) (l : LinkList A) (xs : Cells A) (new : ℕ) (d : A) (ys : Cells A)
      (r : Option (LinkList A × Heap A)) : Type 0 where
    pub ends : Ends
    pub heap : Heap A
    pub run : r ≡ some (increment (record l { ends = ends }), heap)
    pub joint : Joint heap ends xs new d ys

  pub insert_before-Inserted :
      (h k : Heap A) (l : LinkList A) (new : ℕ) (n : Node A) (xs : Cells A) (a : ℕ) (v : A)
      (ys : Cells A)
      → Filled h k new n
      → Joint h l.ends xs a v ys
      → NotIn new xs
      → new ≢ a
      → NotIn new ys
      → Inserted h l xs new n.val ((a, v) ∷ ys) (insert_before new l a k)
  insert_before-Inserted h k l new n xs a v ys f j nx na ny =
      let n1 : Node A = record n { next = some a } in
      let k1 : Heap A = write k new (some n1) in
      let f1 : Filled h k1 new n1 = rewrite-Filled h k new n n1 f in
      let here1 : k1 a ≡ some (node (first ys none) (last none xs) v) = f1.off a na ∙ j.here in
      let n2 : Node A = node (some a) (last none xs) n.val in
      let k2 : Heap A = write k1 new (some n2) in
      let f2 : Filled h k2 new n2 = rewrite-Filled h k1 new n1 n2 f1 in
      let r : Fronted k2 xs (some new) l.ends
          (set_next_or_head (last none xs) (some new) l.ends k2) =
        set_next_or_head-Fronted k2 xs (some a) (some new) l.ends
          (Filled-Chain h k2 new n2 xs none (some a) f2 nx j.front) j.distinct_front j.head in
      let here2 : r.heap a ≡ some (node (first ys none) (last none xs) v) =
        r.off a j.front_here ∙ f2.off a na ∙ j.here in
      let m : Node A = node (first ys none) (some new) v in
      record {
        ends = r.ends;
        heap = write r.heap a (some m);
        run =
            unfold insert_before in
            rw (set_next-some k new (some a) n f.here, ◌>>◌, ◌>>=◌)
              (rw (load-some k1 a (node (first ys none) (last none xs) v) here1, ◌>>=◌)
                (rw (set_prev-some k1 new (last none xs) n1 f1.here, ◌>>◌, ◌>>=◌)
                  (rw (r.run, ◌>>=◌)
                    (rw
                      (
                        set_prev-some r.heap a (some new) (node (first ys none) (last none xs) v)
                            here2,
                        ◌>>◌,
                        ◌>>=◌,
                      )
                      refl))));
        joint = record {
          head = r.head;
          tail = r.tail ∙ j.tail;
          front = Chain-write r.heap a (some m) xs none (some new) j.front_here r.chain;
          here = write_ne r.heap a new (some m) (λ e. na (sym e)) ∙ r.off new nx ∙ f2.here;
          back = (
            write_self r.heap a (some m),
            Chain-write r.heap a (some m) ys (some a) none j.back_here (
                Chain-frame k2 r.heap xs ys (some a) none r.off (Apart-sym xs ys j.apart)
                  (Filled-Chain h k2 new n2 ys (some a) none f2 ny j.back)),
          );
          distinct_front = j.distinct_front;
          distinct_back = (j.back_here, j.distinct_back);
          front_here = nx;
          back_here = (na, ny);
          apart = Apart-cell xs a v ys j.front_here j.apart;
        };
      }

  insert_last-Inserted :
      (h k : Heap A) (l : LinkList A) (new : ℕ) (d : A) (xs : Cells A)
      → Filled h k new (node none none d)
      → IsLinked h l.ends xs
      → NotIn new xs
      → Inserted h l xs new d [] (insert_last new l k)
  insert_last-Inserted h k l new d xs f w nx =
      let n1 : Node A = node none l.ends.tail d in
      let k1 : Heap A = write k new (some n1) in
      let f1 : Filled h k1 new n1 = rewrite-Filled h k new (node none none d) n1 f in
      let r : Fronted k1 xs (some new) l.ends
          (set_next_or_head (last none xs) (some new) l.ends k1) =
        set_next_or_head-Fronted k1 xs none (some new) l.ends
          (Filled-Chain h k1 new n1 xs none none f1 nx w.chain) w.distinct w.head in
      let ran : set_next_or_head l.ends.tail (some new) l.ends k1 ≡ some (r.ends, r.heap) =
        ap (λ p. set_next_or_head p (some new) l.ends k1) w.tail ∙ r.run in
      record {
        ends = record { head = r.ends.head; tail = some new };
        heap = r.heap;
        run =
            unfold insert_last in
            rw (set_prev-some k new l.ends.tail (node none none d) f.here, ◌>>◌, ◌>>=◌)
              (rw (ran, ◌>>=◌) refl);
        joint = record {
          head = r.head;
          tail = refl;
          front = r.chain;
          here = r.off new nx ∙ f1.here ∙ ap (λ p. some (node none p d)) w.tail;
          back = tt;
          distinct_front = w.distinct;
          distinct_back = tt;
          front_here = nx;
          back_here = tt;
          apart = Apart-nil xs;
        };
      }

  pub insert_at-Inserted :
      (h k : Heap A) (l : LinkList A) (new : ℕ) (d : A) (xs ys : Cells A)
      → Filled h k new (node none none d)
      → IsLinked h l.ends (xs ++ ys)
      → NotIn new (xs ++ ys)
      → Inserted h l xs new d ys (insert_at new l (first ys none) k)
  unfolding insert_at
  insert_at-Inserted h k l new d xs [] f w m =
      insert_last-Inserted h k l new d xs f (rw append-nil at w) (rw append-nil at m)
  insert_at-Inserted h k l new d xs ((a, v) ∷ ys) f w m =
      let (nx, (na, ny)) = NotIn-split new xs ((a, v) ∷ ys) m in
      insert_before-Inserted h k l new (node none none d) xs a v ys f
        (IsLinked-Joint h l.ends xs a v ys w) nx na ny
