-- ===== src/EList/Push.antt =====
-- `eris_list_push`.
use erishttp.Common.{
  ℕ, ◌+◌, ◌<◌, ◌≡◌, ◌≢◌, refl, sym, ◌∙◌, ap, Bool, true, false, some, List, [], ◌∷◌, ◌++◌, ℤ, ◌==◌,
  if◌then◌else◌, ==_ne, ==_self, arith, length, length-append, ok, pos, subst,
}
use erishttp.EList.Memory.{Ptr, null, node, Heap, pure, update, bind_run}
use erishttp.EList.{
  EList, insert_before, add_last, push, push_prio, push_plain, push_new, only, find_lower,
}
use erishttp.EList.Seg.{
  Cell, first, last, Fresh, Disjoint, Seg-frame, relink_next, relink_first, store_lem, Seg-update,
  update_self,
}
use erishttp.EList.Join.{Seg-join, Seg-split, last-append, Fresh-left}
use erishttp.EList.Rep.{IsList}
use erishttp.EList.Spec.{insert, above, below, above-below, insert-above}
use erishttp.EList.Insert.{IsReady, insert_before_run, add_last_run, find_lower_run, Disjoint-one}

new_head :
    (head : Ptr) (c y : Cell) (xs ys : List Cell)
    → head ≡ first (xs ++ (y ∷ ys)) null
    → Disjoint xs (y ∷ ys)
    → (if y.place == head then c.place else head) ≡ first (xs ++ (c ∷ y ∷ ys)) null
new_head head c y [] ys e apart = rw (e, ==_self y.place) refl
new_head head c y (x ∷ xs) ys e apart = rw (e, ==_ne y.place x.place (λ q. apart.0.0 (sym q))) refl

-- The new node goes in front of `ys`.
place_new :
    (h : Heap) (l : EList) (c : Cell) (xs ys : List Cell)
    → IsList h l (xs ++ ys)
    → 0 < length (xs ++ ys)
    → IsReady h c (xs ++ ys)
    → (h' : Heap) × (l' : EList) × ((if first ys null == null
            then add_last c.place l
            else insert_before c.place (first ys null) l)
          h
        ≡ some (l', h'))
      × IsList h' l' (xs ++ (c ∷ ys))
place_new h l c [] [] r full ready = absurd (omega arith)
place_new h l c (x ∷ xs) [] r full (new, far) =
    let (X, none_left, apart) = Seg-split h null null (x ∷ xs) [] r.chain in
    let tail = r.tail ∙ last-append null (x ∷ xs) [] in
    let (h', run, S) = add_last_run h l c x xs X (new, Fresh-left c.place (x ∷ xs) [] far) tail in
    let l' = record l { tail = c.place; size = l.size + 1 } in
    let lengths = length-append (x ∷ xs) (c ∷ []) in
    let lengths' = length-append (x ∷ xs) [] in
    (
      h',
      l',
      run,
      record {
        chain = S;
        head = r.head;
        tail = sym (last-append null (x ∷ xs) (c ∷ []));
        counted = omega (arith, r.counted, lengths, lengths');
      },
    )
place_new h l c xs (y ∷ ys) r full ready =
    let (h', run, S) = insert_before_run h l c xs y ys r.chain ready in
    let l' = record l { head = if y.place == l.head then c.place else l.head; size = l.size + 1 } in
    let (X, Y, apart) = Seg-split h null null xs (y ∷ ys) r.chain in
    let lengths = length-append xs (c ∷ y ∷ ys) in
    let lengths' = length-append xs (y ∷ ys) in
    let at_end = r.tail ∙ last-append null xs (y ∷ ys) ∙ sym (last-append null xs (c ∷ y ∷ ys)) in
    (
      h',
      l',
      rw (==_ne y.place null Y.0) run,
      record {
        chain = S;
        head = new_head l.head c y xs ys r.head apart;
        tail = at_end;
        counted = omega (arith, r.counted, lengths, lengths');
      },
    )

push_prio_run :
    (h : Heap) (l : EList) (c : Cell) (cs : List Cell)
    → IsList h l cs
    → IsReady h c cs
    → (h' : Heap) × (l' : EList) × (push_prio c.place c.prio l h ≡ some (l', h'))
      × IsList h' l' (insert c cs)
push_prio_run h l c [] r (new, far) = (
  h,
  only c.place l,
  rw r.head refl,
  record { chain = new; head = refl; tail = refl; counted = omega (arith, r.counted) },
)
push_prio_run h l c (d ∷ ds) r (new, far) =
    let p = c.prio in
    let cs : List Cell = d ∷ ds in
    let parts = above-below p cs in
    let there : (l.head == null) ≡ false = rw r.head (==_ne d.place null r.chain.0) in
    let walk : find_lower l.size p l.head h ≡ some (first (below p cs) null, h) =
      rw r.head (find_lower_run l.size h p null d ds r.chain (omega (arith, r.counted))) in
    let (h', l', run, r') =
      place_new h l c (above p cs) (below p cs) (subst (λ t. IsList h l t) (sym parts) r)
        (omega (arith, ap (λ (t : List Cell). length t) parts))
        (subst (λ t. IsReady h c t) (sym parts) (new, far)) in
    (h', l', rw (there, walk) run, subst (λ t. IsList h' l' t) (sym (insert-above c cs)) r')

new_tail :
    (size : ℕ) (p tail : Ptr) (cs : List Cell)
    → size ≡ length cs
    → tail ≡ last null cs
    → (if size == 0 then p else tail) ≡ last p cs
new_tail size p tail [] e k = rw e refl
new_tail size p tail (d ∷ ds) e k =
    let full : (size == 0) ≡ false = ground arith in rw (full, k) refl

push_plain_run :
    (h : Heap) (l : EList) (c : Cell) (cs : List Cell)
    → IsList h l cs
    → IsReady h c cs
    → (h' : Heap) × (l' : EList) × (push_plain c.place l h ≡ some (l', h')) × IsList h' l' (c ∷ cs)
push_plain_run h l c cs r (new, far) =
    let (h2, r2, N2, F2) = relink_next h null null (first cs null) c [] new in
    let S2 = Seg-frame h h2 null null (c ∷ []) cs F2 (Disjoint-one c cs far) r.chain in
    let (h3, r3, S3, F3) = relink_first h2 null c.place cs S2 in
    let N3 = Seg-frame h2 h3 null (first cs null) cs (c ∷ []) F3 (far, tt) N2 in
    let l' = record l {
      head = c.place;
      tail = if l.size == 0 then c.place else l.tail;
      size = l.size + 1;
    } in
    (
      h3,
      l',
      rw (r.head, r2, r3) refl,
      record {
        chain = Seg-join h3 null null (c ∷ []) cs N3 S3 (Disjoint-one c cs far);
        head = refl;
        tail = new_tail l.size c.place l.tail cs r.counted r.tail;
        counted = omega (arith, r.counted);
      },
    )

-- the memory with the new node
abbrev stored : Heap → Cell → Heap
stored h c = update h c.place (some (node c.prio c.item null null))

new-IsReady :
    (h : Heap) (c : Cell) (cs : List Cell)
    → c.place ≢ null
    → Fresh c.place cs
    → IsReady (stored h c) c cs
new-IsReady h c cs there far =
    ((there, tt, update_self h c.place (some (node c.prio c.item null null)), tt), far)

stored-IsList :
    (h : Heap) (l : EList) (c : Cell) (cs : List Cell)
    → Fresh c.place cs
    → IsList h l cs
    → IsList (stored h c) l cs
stored-IsList h l c cs far r = record {
  chain = Seg-update h c.place null null (some (node c.prio c.item null null)) cs far r.chain;
  head = r.head;
  tail = r.tail;
  counted = r.counted;
}

push_new_run :
    (b : Bool) (new : Ptr) (h : Heap) (l : EList) (cs : List Cell) (item : Ptr) (prio : ℤ)
    → IsList h l cs
    → Fresh new cs
    → new ≢ null
    → (h' : Heap) × (l' : EList) × (push_new b new item prio l h ≡ some (l', h'))
      × IsList h' l' (
          if b
          then insert (record { place = new; prio = prio; item = item }) cs
          else record { place = new; prio = pos 0; item = item } ∷ cs)
push_new_run true new h l cs item prio r far there =
    let c : Cell = record { place = new; prio = prio; item = item } in
    let (h', l', run, r') =
      push_prio_run (stored h c) l c cs (stored-IsList h l c cs far r)
        (new-IsReady h c cs there far) in
    (h', l', rw (store_lem h new (node prio item null null)) run, r')
push_new_run false new h l cs item prio r far there =
    let c : Cell = record { place = new; prio = pos 0; item = item } in
    let (h', l', run, r') =
      push_plain_run (stored h c) l c cs (stored-IsList h l c cs far r)
        (new-IsReady h c cs there far) in
    (h', l', rw (store_lem h new (node (pos 0) item null null)) run, r')

-- `eris_list_push` of a pointer that is not NULL, with a node that the list does not have: it
-- returns 0 without a fault, and the list is the old one with the new node. With priorities the
-- node goes behind the last node whose priority is not lower, else in front of all.
pub push-insert :
    (new : Ptr) (h : Heap) (l : EList) (cs : List Cell) (item : Ptr) (prio : ℤ)
    → IsList h l cs
    → Fresh new cs
    → new ≢ null
    → item ≢ null
    → (h' : Heap) × (l' : EList) × (push new l item prio h ≡ some ((ok, l'), h'))
      × IsList h' l' (
          if l.enable_prio
          then insert (record { place = new; prio = prio; item = item }) cs
          else record { place = new; prio = pos 0; item = item } ∷ cs)
unfolding push
push-insert new h l cs item prio r far there some_item =
    let e1 = ==_ne item null some_item in
    let e2 = ==_ne new null there in
    let (h', l', run, r') = push_new_run l.enable_prio new h l cs item prio r far there in
    (
      h',
      l',
      rw (e1, e2) (bind_run (push_new l.enable_prio new item prio l) (λ l2. pure (ok, l2)) h run),
      r',
    )
