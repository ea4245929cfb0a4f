-- ===== src/EList/Join.antt =====
-- Segments joined and split.
use erishttp.Common.{◌≡◌, refl, sym, ◌∙◌, ap, some, List, [], ◌∷◌, ◌++◌}
use erishttp.EList.Memory.{Ptr, node, Heap}
use erishttp.EList.Seg.{Cell, first, last, Fresh, Seg, Disjoint}

pub first-append :
    (xs ys : List Cell) (after : Ptr) → first (xs ++ ys) after ≡ first xs (first ys after)
first-append [] ys after = refl
first-append (x ∷ xs) ys after = refl

pub last-append :
    (before : Ptr) (xs ys : List Cell) → last before (xs ++ ys) ≡ last (last before xs) ys
last-append before [] ys = refl
last-append before (x ∷ xs) ys = last-append x.place xs ys

pub Fresh-append : (p : Ptr) (xs ys : List Cell) → Fresh p xs → Fresh p ys → Fresh p (xs ++ ys)
Fresh-append p [] ys h k = k
Fresh-append p (x ∷ xs) ys (ne, h) k = (ne, Fresh-append p xs ys h k)

pub Fresh-left : (p : Ptr) (xs ys : List Cell) → Fresh p (xs ++ ys) → Fresh p xs
Fresh-left p [] ys h = tt
Fresh-left p (x ∷ xs) ys (ne, h) = (ne, Fresh-left p xs ys h)

pub Fresh-right : (p : Ptr) (xs ys : List Cell) → Fresh p (xs ++ ys) → Fresh p ys
Fresh-right p [] ys h = h
Fresh-right p (x ∷ xs) ys (ne, h) = Fresh-right p xs ys h

Disjoint-first : (x : Cell) (xs ys : List Cell) → Disjoint (x ∷ xs) ys → Fresh x.place ys
Disjoint-first x xs [] apart = tt
Disjoint-first x xs (y ∷ ys) (far, apart) = ((λ e. far.0 (sym e)), Disjoint-first x xs ys apart)

Disjoint-rest : (x : Cell) (xs ys : List Cell) → Disjoint (x ∷ xs) ys → Disjoint xs ys
Disjoint-rest x xs [] apart = tt
Disjoint-rest x xs (y ∷ ys) (far, apart) = (far.1, Disjoint-rest x xs ys apart)

Disjoint-cons :
    (x : Cell) (xs ys : List Cell) → Fresh x.place ys → Disjoint xs ys → Disjoint (x ∷ xs) ys
Disjoint-cons x xs [] far apart = tt
Disjoint-cons x xs (y ∷ ys) (ne, far) (h, apart) =
    (((λ e. ne (sym e)), h), Disjoint-cons x xs ys far apart)

Disjoint-nil : (ys : List Cell) → Disjoint [] ys
Disjoint-nil [] = tt
Disjoint-nil (y ∷ ys) = (tt, Disjoint-nil ys)

pub Disjoint-sym : (xs ys : List Cell) → Disjoint xs ys → Disjoint ys xs
Disjoint-sym [] ys apart = tt
Disjoint-sym (x ∷ xs) ys apart =
    (Disjoint-first x xs ys apart, Disjoint-sym xs ys (Disjoint-rest x xs ys apart))

pub Seg-join :
    (h : Heap) (before after : Ptr) (xs ys : List Cell)
    → Seg h before xs (first ys after)
    → Seg h (last before xs) ys after
    → Disjoint xs ys
    → Seg h before (xs ++ ys) after
Seg-join h before after [] ys s t apart = t
Seg-join h before after (x ∷ xs) ys (there, fresh, at, s) t apart = (
  there,
  Fresh-append x.place xs ys fresh (Disjoint-first x xs ys apart),
  rw (first-append xs ys after) at,
  Seg-join h x.place after xs ys s t (Disjoint-rest x xs ys apart),
)

pub Seg-split :
    (h : Heap) (before after : Ptr) (xs ys : List Cell)
    → Seg h before (xs ++ ys) after
    → Seg h before xs (first ys after) × Seg h (last before xs) ys after × Disjoint xs ys
Seg-split h before after [] ys s = (tt, s, Disjoint-nil ys)
Seg-split h before after (x ∷ xs) ys (there, fresh, at, s) =
    let (s1, s2, apart) = Seg-split h x.place after xs ys s in
    (
      (
        there,
        Fresh-left x.place xs ys fresh,
        at ∙ ap (λ q. some (node x.prio x.item before q)) (first-append xs ys after),
        s1,
      ),
      s2,
      Disjoint-cons x xs ys (Fresh-right x.place xs ys fresh) apart,
    )
