-- ===== src/EList/Insert.antt =====
-- A new node between two segments of a list.
use erishttp.Common.{
  ℕ, zero, suc, ◌+◌, ◌≤◌, ◌≡◌, refl, sym, Bool-cases, inl, inr, some, List, [], ◌∷◌, ◌++◌, ℤ, ltb_ℤ,
  ◌==◌, if◌then◌else◌, ==_ne, arith, length,
}
use erishttp.EList.Memory.{Ptr, null, node, Heap}
use erishttp.EList.{EList, insert_before, add_last, find_lower}
use erishttp.EList.Seg.{
  Cell, first, last, Fresh, Seg, Disjoint, Seg-frame, load_lem, relink_prev, relink_next,
  relink_last,
}
use erishttp.EList.Join.{Seg-join, Seg-split, Disjoint-sym, Fresh-left, Fresh-right}
use erishttp.EList.Spec.{below}

-- The new node `c` stands alone, and none of the others has its address.
abbrev pub IsReady : Heap → Cell → List Cell → Type 0
IsReady h c cs = Seg h null (c ∷ []) null × Fresh c.place cs

pub Disjoint-one : (c : Cell) (cs : List Cell) → Fresh c.place cs → Disjoint (c ∷ []) cs
Disjoint-one c [] far = tt
Disjoint-one c (d ∷ ds) (ne, far) = (((λ e. ne (sym e)), tt), Disjoint-one c ds far)

pub insert_before_run :
    (h : Heap) (l : EList) (c : Cell) (xs : List Cell) (y : Cell) (ys : List Cell)
    → Seg h null (xs ++ (y ∷ ys)) null
    → IsReady h c (xs ++ (y ∷ ys))
    → (h' : Heap) × (insert_before c.place y.place l h
        ≡ some (
          record l { head = if y.place == l.head then c.place else l.head; size = l.size + 1 },
          h',
        ))
      × Seg h' null (xs ++ (c ∷ y ∷ ys)) null
insert_before_run h l c xs y ys s (new, far) =
    let (X, Y, apart) = Seg-split h null null xs (y ∷ ys) s in
    let farX = Fresh-left c.place xs (y ∷ ys) far in
    let farY = Fresh-right c.place xs (y ∷ ys) far in
    let r1 = load_lem h y.place (node y.prio y.item (last null xs) (first ys null)) Y.0 Y.2 in
    let (h2, r2, N2, F2) = relink_prev h null null (last null xs) c [] new in
    let X2 = Seg-frame h h2 null y.place (c ∷ []) xs F2 (Disjoint-one c xs farX) X in
    let Y2 =
      Seg-frame h h2 (last null xs) null (c ∷ []) (y ∷ ys) F2 (Disjoint-one c (y ∷ ys) farY) Y in
    let (h3, r3, X3, F3) = relink_last h2 y.place c.place xs X2 in
    let N3 = Seg-frame h2 h3 (last null xs) null xs (c ∷ []) F3 (farX, tt) N2 in
    let Y3 = Seg-frame h2 h3 (last null xs) null xs (y ∷ ys) F3 apart Y2 in
    let (h4, r4, Y4, F4) = relink_prev h3 (last null xs) null c.place y ys Y3 in
    let N4 = Seg-frame h3 h4 (last null xs) null (y ∷ ys) (c ∷ []) F4 (farY, tt) N3 in
    let X4 = Seg-frame h3 h4 null c.place (y ∷ ys) xs F4 (Disjoint-sym xs (y ∷ ys) apart) X3 in
    let (h5, r5, N5, F5) = relink_next h4 (last null xs) null y.place c [] N4 in
    let X5 = Seg-frame h4 h5 null c.place (c ∷ []) xs F5 (Disjoint-one c xs farX) X4 in
    let Y5 = Seg-frame h4 h5 c.place null (c ∷ []) (y ∷ ys) F5 (Disjoint-one c (y ∷ ys) farY) Y4 in
    let right =
      Seg-join h5 (last null xs) null (c ∷ []) (y ∷ ys) N5 Y5 (Disjoint-one c (y ∷ ys) farY) in
    (h5, rw (r1, r2, r3, r4, r5) refl, Seg-join h5 null null xs (c ∷ y ∷ ys) X5 right (farX, apart))

pub add_last_run :
    (h : Heap) (l : EList) (c x : Cell) (xs : List Cell)
    → Seg h null (x ∷ xs) null
    → IsReady h c (x ∷ xs)
    → l.tail ≡ last null (x ∷ xs)
    → (h' : Heap) × (add_last c.place l h
        ≡ some (record l { tail = c.place; size = l.size + 1 }, h'))
      × Seg h' null ((x ∷ xs) ++ (c ∷ [])) null
add_last_run h l c x xs X (new, far) tail =
    let (h2, r2, N2, F2) = relink_prev h null null (last null (x ∷ xs)) c [] new in
    let X2 = Seg-frame h h2 null null (c ∷ []) (x ∷ xs) F2 (Disjoint-one c (x ∷ xs) far) X in
    let (h3, r3, X3, F3) = relink_next h2 null null c.place x xs X2 in
    let N3 = Seg-frame h2 h3 (last null (x ∷ xs)) null (x ∷ xs) (c ∷ []) F3 (far, tt) N2 in
    (h3, rw (tail, r2, r3) refl, Seg-join h3 null null (x ∷ xs) (c ∷ []) X3 N3 (far, tt))

-- The walk stops at the first node with a lower priority.
pub find_lower_run :
    (rounds : ℕ) (h : Heap) (p : ℤ) (before : Ptr) (c : Cell) (cs : List Cell)
    → Seg h before (c ∷ cs) null
    → length (c ∷ cs) ≤ rounds
    → find_lower rounds p c.place h ≡ some (first (below p (c ∷ cs)) null, h)
unfolding find_lower
find_lower_run zero h p before c cs s enough = absurd (omega arith)
find_lower_run (suc rounds) h p before c [] (there, fresh, at, s) enough =
    let r1 = load_lem h c.place (node c.prio c.item before null) there at in
    elim (Bool-cases (ltb_ℤ c.prio p)) [ inl k ↦ rw (r1, k) refl | inr k ↦ rw (r1, k) refl ]
find_lower_run (suc rounds) h p before c (d ∷ ds) (there, fresh, at, s) enough =
    let r1 = load_lem h c.place (node c.prio c.item before d.place) there at in
    let on = find_lower_run rounds h p c.place d ds s (omega arith) in
    elim (Bool-cases (ltb_ℤ c.prio p)) [
      | inl k ↦ rw (r1, k) refl
      | inr k ↦ rw (r1, k, ==_ne d.place null s.0) on
    ]
