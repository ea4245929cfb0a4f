-- ===== src/EList/Pop.antt =====
-- `eris_list_pop` and `eris_list_pop_back`.
use erishttp.Common.{
  ◌-◌, ◌≡◌, refl, ◌∙◌, true, false, some, none, List, [], ◌∷◌, ◌++◌, ◌==◌, ==_ne, arith,
  length-append,
}
use erishttp.EList.Memory.{Ptr, null, Node, node, Heap, update}
use erishttp.EList.{EList, pop, pop_back}
use erishttp.EList.Seg.{
  Cell, first, last, Seg, Seg-update, update_self, load_lem, load-none, free_lem, relink_prev,
  relink_next, last-ne-null,
}
use erishttp.EList.Join.{Seg-split, last-append}
use erishttp.EList.Rep.{IsList}

-- `eris_list_pop` of a list that is not empty returns the pointer of its first node without a
-- fault; the list is left with the other nodes.
pub pop-cons :
    (h : Heap) (l : EList) (c : Cell) (cs : List Cell)
    → IsList h l (c ∷ cs)
    → (h' : Heap) × (l' : EList) × (pop l h ≡ some ((c.item, l'), h')) × IsList h' l' cs
unfolding pop
pop-cons h l c [] r =
    let n = node c.prio c.item null null in
    let there = r.chain.0 in
    let at = r.chain.2 in
    let one : (l.size == 1) ≡ true = ground (arith, r.counted) in
    (
      update h c.place none,
      record l { head = null; tail = null; size = l.size - 1 },
      rw
          (
            r.head,
            ==_ne c.place null there,
            load_lem h c.place n there at,
            one,
            free_lem h c.place n there at,
          )
          refl,
      record { chain = tt; head = refl; tail = refl; counted = omega (arith, r.counted) },
    )
pop-cons h l c (d ∷ ds) r =
    let (there, fresh, at, s) = r.chain in
    let n = node c.prio c.item null d.place in
    let m = node d.prio d.item c.place (first ds null) in
    let more : (l.size == 1) ≡ false = ground (arith, r.counted) in
    let h2 = update h c.place none in
    let S2 = Seg-update h c.place c.place null none (d ∷ ds) fresh s in
    let (h3, r3, S3, F3) = relink_prev h2 c.place null null d ds S2 in
    (
      h3,
      record l { head = d.place; size = l.size - 1 },
      rw
          (
            r.head,
            ==_ne c.place null there,
            load_lem h c.place n there at,
            more,
            load_lem h d.place m s.0 s.2,
            ==_ne c.place null there,
            free_lem h c.place n there at,
            r3,
          )
          refl,
      record { chain = S3; head = refl; tail = r.tail; counted = omega (arith, r.counted) },
    )

-- the last node, and the link behind it
load_last :
    (h : Heap) (before after : Ptr) (c : Cell) (cs : List Cell)
    → Seg h before (c ∷ cs) after
    → (n : Node) × (h (last before (c ∷ cs)) ≡ some n) × (n.next ≡ after)
load_last h before after c [] (there, fresh, at, s) = (node c.prio c.item before after, at, refl)
load_last h before after c (d ∷ cs) (there, fresh, at, s) = load_last h c.place after d cs s

-- `eris_list_pop_back` of a list of two nodes or more returns the pointer of its last node without a
-- fault; the list is left with the other nodes.
pub pop_back-snoc :
    (h : Heap) (l : EList) (c : Cell) (cs : List Cell) (z : Cell)
    → IsList h l ((c ∷ cs) ++ (z ∷ []))
    → (h' : Heap) × (l' : EList) × (pop_back l h ≡ some ((z.item, l'), h')) × IsList h' l' (c ∷ cs)
unfolding pop_back
pop_back-snoc h l c cs z r =
    let (S, Z, apart) = Seg-split h null null (c ∷ cs) (z ∷ []) r.chain in
    let before = last null (c ∷ cs) in
    let (m, m_at, m_next) = load_last h null z.place c cs S in
    let n = node z.prio z.item before null in
    let tail : l.tail ≡ z.place = r.tail ∙ last-append null (c ∷ cs) (z ∷ []) in
    let lengths = length-append (c ∷ cs) (z ∷ []) in
    let more = ==_ne l.size 1 (λ e. omega (arith, r.counted, lengths)) in
    let some_before = last-ne-null h null z.place c cs S in
    let h2 = update h z.place none in
    let S2 = Seg-update h z.place null z.place none (c ∷ cs) apart.0 S in
    let (h3, r3, S3, F3) = relink_next h2 null z.place null c cs S2 in
    (
      h3,
      record l { tail = before; size = l.size - 1 },
      rw
          (
            tail,
            ==_ne z.place null Z.0,
            load_lem h z.place n Z.0 Z.2,
            more,
            load_lem h before m some_before m_at,
            m_next,
            ==_ne z.place null Z.0,
            free_lem h z.place n Z.0 Z.2,
            r3,
          )
          refl,
      record {
        chain = S3;
        head = r.head;
        tail = refl;
        counted = omega (arith, r.counted, lengths);
      },
    )

-- `eris_list_pop_back` of the only node returns its pointer and frees the node, and leaves the head
-- of the list at the freed node: an `eris_list_pop` that follows reads it, which is a fault.
pub pop-pop_back :
    (h : Heap) (l : EList) (c : Cell)
    → IsList h l (c ∷ [])
    → (h' : Heap) × (l' : EList) × (pop_back l h ≡ some ((c.item, l'), h'))
      × (l'.head ≡ c.place)
      × (h' c.place ≡ none)
      × (pop l' h' ≡ none)
unfolding pop pop_back
pop-pop_back h l c r =
    let (there, fresh, at, s) = r.chain in
    let n = node c.prio c.item null null in
    let one : (l.size == 1) ≡ true = ground (arith, r.counted) in
    let h' = update h c.place none in
    let l' = record l { tail = null; size = l.size - 1 } in
    (
      h',
      l',
      rw
          (
            r.tail,
            ==_ne c.place null there,
            load_lem h c.place n there at,
            one,
            free_lem h c.place n there at,
          )
          refl,
      r.head,
      update_self h c.place none,
      rw (r.head, ==_ne c.place null there, load-none h' c.place (update_self h c.place none)) refl,
    )
