-- ===== src/Linklist/Delete.antt =====
-- linklist.c: nodes that are taken out of a list.
use mksh.Prelude.{ℕ, ◌≡◌, refl, sym, ◌∙◌, Option, none, some, ◌∷◌, ◌++◌, arith, length-append}
use mksh.Nodes.{Node, Heap, Ends, ◌>>=◌, ◌>>◌, write, store, set_next_or_head, set_prev_or_tail}
use mksh.Nodes.Chain.{
  Cells, first, last, node, write_self, Chain-write, Chain-frame, Chain-append, Apart-sym,
  first-append, last-append, Distinct-append,
}
use mksh.Nodes.Link.{load-some, Fronted, set_next_or_head-Fronted, Backed, set_prev_or_tail-Backed}
use mksh.Nodes.Linked.{IsLinked, Joint, IsLinked-Joint}
use mksh.Linklist.{LinkList, decrement, listnode_free, list_delete_node}
use mksh.Linklist.Sort.{IsList, Gives}

module _ {A : Type 0} where
  listnode_free-some :
      (h : Heap A) (a : ℕ) (n : Node A)
      → h a ≡ some n
      → listnode_free a h ≡ some (tt, write h a none)
  unfolding listnode_free store
  listnode_free-some h a n e = rw (load-some h a n e, ◌>>=◌) refl

  -- A run that takes the cell between `xs` and `ys` out, and frees its node.
  record Unlinked (h : Heap A) (l : LinkList A) (xs : Cells A) (a : ℕ) (ys : Cells A)
      (r : Option (LinkList A × Heap A)) : Type 0 where
    ends : Ends
    heap : Heap A
    run : r ≡ some (decrement (record l { ends = ends }), heap)
    linked : IsLinked heap ends (xs ++ ys)
    gone : heap a ≡ none

  list_delete_node-Unlinked :
      (h : Heap A) (l : LinkList A) (xs : Cells A) (a : ℕ) (d : A) (ys : Cells A)
      → Joint h l.ends xs a d ys
      → Unlinked h l xs a ys (list_delete_node l a h)
  list_delete_node-Unlinked h l xs a d ys j =
      let n : Node A = node (first ys none) (last none xs) d in
      let r : Fronted h xs (first ys none) l.ends
          (set_next_or_head (last none xs) (first ys none) l.ends h) =
        set_next_or_head-Fronted h xs (some a) (first ys none) l.ends j.front j.distinct_front
          j.head in
      let here1 : r.heap a ≡ some n = r.off a j.front_here ∙ j.here in
      let b : Backed r.heap ys (last none xs) r.ends
          (set_prev_or_tail (first ys none) (last none xs) r.ends r.heap) =
        set_prev_or_tail-Backed r.heap ys (some a) (last none xs) r.ends
          (Chain-frame h r.heap xs ys (some a) none r.off (Apart-sym xs ys j.apart) j.back)
          j.distinct_back (r.tail ∙ j.tail) in
      let here2 : b.heap a ≡ some n = b.off a j.back_here ∙ here1 in
      record {
        ends = b.ends;
        heap = write b.heap a none;
        run =
            unfold list_delete_node in
            rw (load-some h a n j.here, ◌>>=◌)
              (rw (r.run, ◌>>=◌)
                (rw (load-some r.heap a n here1, ◌>>=◌)
                  (rw (b.run, ◌>>=◌)
                    (rw (listnode_free-some b.heap a n here2, ◌>>◌, ◌>>=◌) refl))));
        linked = record {
          head = b.head ∙ r.head ∙ sym (first-append xs ys none);
          tail = b.tail ∙ sym (last-append none xs ys);
          chain =
              Chain-append (write b.heap a none) none xs ys none
                (Chain-write b.heap a none xs none (first ys none) j.front_here
                  (Chain-frame r.heap b.heap ys xs none (first ys none) b.off j.apart r.chain))
                (Chain-write b.heap a none ys (last none xs) none j.back_here b.chain);
          distinct = Distinct-append xs ys j.distinct_front j.distinct_back j.apart;
        };
        gone = write_self b.heap a none;
      }

  -- `list_delete_node` of a node of a list returns. The list then holds the other nodes in their
  -- order, the node is given back, the count falls by one, and `cmp` and `del` stay.
  pub list_delete_node-IsList :
      (h : Heap A) (l : LinkList A) (xs : Cells A) (a : ℕ) (d : A) (ys : Cells A)
      → IsList h l (xs ++ (a, d) ∷ ys)
      → Gives
          (λ m k. IsList k m (xs ++ ys) × (k a ≡ none) × (m.cmp ≡ l.cmp) × (m.del ≡ l.del))
          (list_delete_node l a h)
  unfolding decrement
  list_delete_node-IsList h l xs a d ys w =
      let u =
        list_delete_node-Unlinked h l xs a d ys (IsLinked-Joint h l.ends xs a d ys w.linked) in
      (
        decrement (record l { ends = u.ends }),
        u.heap,
        u.run,
        (
          record {
            linked = u.linked;
            count =
                omega
                  (arith, w.count, length-append xs ys, length-append {A = ℕ × A} xs ((a, d) ∷ ys));
          },
          u.gone,
          refl,
          refl,
        ),
      )
