-- ===== src/Linklist/After.antt =====
-- linklist.c: `listnode_add_after`.
use mksh.Prelude.{ℕ, ◌≡◌, ◌≢◌, refl, sym, ap, ◌∙◌, Option, none, some, ◌∷◌, ◌++◌}
use mksh.Nodes.{Node, Heap, ◌>>=◌, ◌>>◌, write, store, set_prev_or_tail}
use mksh.Nodes.Chain.{
  Cells, first, last, node, Chain, NotIn, write_self, write_ne, Chain-write, Chain-frame,
  Chain-NotIn, NotIn-split, Apart-cell,
}
use mksh.Nodes.Link.{load-some, set_next-some, set_prev-some, Backed, set_prev_or_tail-Backed}
use mksh.Nodes.Linked.{
  IsLinked, Joint, IsLinked-Joint, Joint-IsLinked, Filled, Filled-Chain, write-Filled,
  rewrite-Filled,
}
use mksh.Linklist.{LinkList, listnode_new, listnode_add_after}
use mksh.Linklist.Sort.{Gives}

module _ {A : Type 0} where
  -- A run that leaves a list of these cells, and the count as it was.
  abbrev pub Links : LinkList A → Cells A → Option (LinkList A × Heap A) → Type 0
  Links l xs =
      Gives (λ m k. IsLinked k m.ends xs × (m.count ≡ l.count) × (m.cmp ≡ l.cmp) × (m.del ≡ l.del))

  add_after-none :
      (h : Heap A) (l : LinkList A) (new : ℕ) (d : A) (xs : Cells A)
      → IsLinked h l.ends xs
      → NotIn new xs
      → Links l ((new, d) ∷ xs) (listnode_add_after new l none d h)
  add_after-none h l new d xs w nx =
      let k : Heap A = write h new (some (node none none d)) in
      let f : Filled h k new (node none none d) = write-Filled h new (node none none d) in
      let b : Backed k xs (some new) l.ends (set_prev_or_tail (first xs none) (some new) l.ends k) =
        set_prev_or_tail-Backed k xs none (some new) l.ends
          (Filled-Chain h k new (node none none d) xs none none f nx w.chain) w.distinct w.tail in
      let ran : set_prev_or_tail l.ends.head (some new) l.ends k ≡ some (b.ends, b.heap) =
        ap (λ p. set_prev_or_tail p (some new) l.ends k) w.head ∙ b.run in
      let here1 : b.heap new ≡ some (node none none d) = b.off new nx ∙ f.here in
      let n1 : Node A = node b.ends.head none d in
      let k1 : Heap A = write b.heap new (some n1) in
      let f1 : Filled b.heap k1 new n1 = write-Filled b.heap new n1 in
      let k2 : Heap A = write k1 new (some n1) in
      let f2 : Filled b.heap k2 new n1 = rewrite-Filled b.heap k1 new n1 n1 f1 in
      (
        record l { ends = record { head = some new; tail = b.ends.tail } },
        k2,
        unfold listnode_add_after in
            unfold listnode_new in
            unfold store in
            rw (ran, ◌>>=◌, ◌>>◌)
              (rw (set_next-some b.heap new b.ends.head (node none none d) here1, ◌>>=◌, ◌>>◌)
                (rw (set_prev-some k1 new none n1 f1.here, ◌>>=◌, ◌>>◌) refl)),
        (
          record {
            head = refl;
            tail = b.tail;
            chain = (
              f2.here ∙ ap (λ p. some (node p none d)) (b.head ∙ w.head),
              Filled-Chain b.heap k2 new n1 xs (some new) none f2 nx b.chain,
            );
            distinct = (nx, w.distinct);
          },
          refl,
          refl,
          refl,
        ),
      )

  add_after-some :
      (h : Heap A) (l : LinkList A) (new : ℕ) (d : A) (xs : Cells A) (a : ℕ) (v : A) (ys : Cells A)
      → Joint h l.ends xs a v ys
      → NotIn new xs
      → new ≢ a
      → NotIn new ys
      → Links l (xs ++ (a, v) ∷ (new, d) ∷ ys) (listnode_add_after new l (some a) d h)
  add_after-some h l new d xs a v ys j nx na ny =
      let n0 : Node A = node none none d in
      let k : Heap A = write h new (some n0) in
      let f : Filled h k new n0 = write-Filled h new n0 in
      let m : Node A = node (first ys none) (last none xs) v in
      let here : k a ≡ some m = f.off a na ∙ j.here in
      let b : Backed k ys (some new) l.ends (set_prev_or_tail (first ys none) (some new) l.ends k) =
        set_prev_or_tail-Backed k ys (some a) (some new) l.ends
          (Filled-Chain h k new n0 ys (some a) none f ny j.back) j.distinct_back j.tail in
      let here1 : b.heap a ≡ some m = b.off a j.back_here ∙ here in
      let new1 : b.heap new ≡ some n0 = b.off new ny ∙ f.here in
      let n2 : Node A = node (first ys none) none d in
      let k2 : Heap A = write b.heap new (some n2) in
      let f2 : Filled b.heap k2 new n2 = write-Filled b.heap new n2 in
      let n3 : Node A = node (first ys none) (some a) d in
      let k3 : Heap A = write k2 new (some n3) in
      let f3 : Filled b.heap k3 new n3 = rewrite-Filled b.heap k2 new n2 n3 f2 in
      let here3 : k3 a ≡ some m = f3.off a na ∙ here1 in
      let m4 : Node A = node (some new) (last none xs) v in
      let k4 : Heap A = write k3 a (some m4) in
      let front : Chain b.heap none xs (some a) =
        Chain-frame k b.heap ys xs none (some a) b.off j.apart
          (Filled-Chain h k new n0 xs none (some a) f nx j.front) in
      (
        record l { ends = b.ends },
        k4,
        unfold listnode_add_after in
            unfold listnode_new in
            unfold store in
            rw (load-some k a m here, ◌>>=◌, ◌>>◌)
              (rw (b.run, ◌>>=◌, ◌>>◌)
                (rw (load-some b.heap a m here1, ◌>>=◌, ◌>>◌)
                  (rw (set_next-some b.heap new (first ys none) n0 new1, ◌>>=◌, ◌>>◌)
                    (rw (set_prev-some k2 new (some a) n2 f2.here, ◌>>=◌, ◌>>◌)
                      (rw (set_next-some k3 a (some new) m here3, ◌>>=◌, ◌>>◌) refl))))),
        (
          Joint-IsLinked k4 b.ends xs a v ((new, d) ∷ ys) (record {
            head = b.head ∙ j.head;
            tail = b.tail;
            front =
                Chain-write k3 a (some m4) xs none (some a) j.front_here
                  (Filled-Chain b.heap k3 new n3 xs none (some a) f3 nx front);
            here = write_self k3 a (some m4);
            back = (
              write_ne k3 a new (some m4) (λ e. na (sym e)) ∙ f3.here,
              Chain-write k3 a (some m4) ys (some new) none j.back_here
                  (Filled-Chain b.heap k3 new n3 ys (some new) none f3 ny b.chain),
            );
            distinct_front = j.distinct_front;
            distinct_back = (ny, j.distinct_back);
            front_here = j.front_here;
            back_here = ((λ e. na (sym e)), j.back_here);
            apart = Apart-cell xs new d ys nx j.apart;
          }),
          refl,
          refl,
          refl,
        ),
      )

  -- In a list with a node `a`, and with an address that holds no node, `listnode_add_after` puts the new
  -- node in front of the list for NULL and behind `a` for that node. The count stays as it was.
  pub listnode_add_after-Links :
      (h : Heap A) (l : LinkList A) (new : ℕ) (d : A) (front : Cells A) (a : ℕ) (v : A)
      (back : Cells A)
      → IsLinked h l.ends (front ++ (a, v) ∷ back)
      → h new ≡ none
      → Links l ((new, d) ∷ (front ++ (a, v) ∷ back)) (listnode_add_after new l none d h)
        × Links l (front ++ (a, v) ∷ (new, d) ∷ back) (listnode_add_after new l (some a) d h)
  listnode_add_after-Links h l new d front a v back w e =
      let xs : Cells A = front ++ (a, v) ∷ back in
      let out : NotIn new xs = Chain-NotIn h new none none xs e w.chain in
      let (nx, (na, ny)) = NotIn-split new front ((a, v) ∷ back) out in
      (
        add_after-none h l new d xs w out,
        add_after-some h l new d front a v back (IsLinked-Joint h l.ends front a v back w) nx na ny,
      )
