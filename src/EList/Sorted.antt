-- ===== src/EList/Sorted.antt =====
-- A list with priorities stays sorted.
use erishttp.Common.{
  ◌≡◌, ◌≢◌, true, false, some, List, [], ◌∷◌, ℤ, ltb_ℤ, if◌then◌else◌, Bool-cases, inl, inr, All,
  arith, subst, ok, Bool, pos,
}
use erishttp.EList.Memory.{Ptr, Heap, null}
use erishttp.EList.{EList, push}
use erishttp.EList.Seg.{Cell, Fresh}
use erishttp.EList.Rep.{IsList}
use erishttp.EList.Spec.{insert, IsSorted}
use erishttp.EList.Push.{push-insert}

lower_all :
    (p q : ℤ) (cs : List Cell)
    → ltb_ℤ p q ≡ true
    → All (λ (d : Cell). ltb_ℤ p d.prio ≡ false) cs
    → All (λ (d : Cell). ltb_ℤ q d.prio ≡ false) cs
lower_all p q [] h all = tt
lower_all p q (d ∷ cs) h all = (lower p q d.prio h all.0, lower_all p q cs h all.1)
  where
    lower : (p q r : ℤ) → ltb_ℤ p q ≡ true → ltb_ℤ p r ≡ false → ltb_ℤ q r ≡ false
    lower p q r h k = ground (arith, h, k)

not_lower : (p q : ℤ) → ltb_ℤ p q ≡ true → ltb_ℤ q p ≡ false
not_lower p q h = ground (arith, h)

All-insert :
    (p : ℤ) (c : Cell) (cs : List Cell)
    → ltb_ℤ p c.prio ≡ false
    → All (λ (d : Cell). ltb_ℤ p d.prio ≡ false) cs
    → All (λ (d : Cell). ltb_ℤ p d.prio ≡ false) (insert c cs)
All-insert p c [] h all = (h, tt)
All-insert p c (d ∷ cs) h all = elim (Bool-cases (ltb_ℤ d.prio c.prio)) [
  | inl y ↦ rw y (h, all)
  | inr n ↦ rw n (all.0, All-insert p c cs h all.1)
]

insert-IsSorted : (c : Cell) (cs : List Cell) → IsSorted cs → IsSorted (insert c cs)
insert-IsSorted c [] s = (tt, tt)
insert-IsSorted c (d ∷ cs) s = elim (Bool-cases (ltb_ℤ d.prio c.prio)) [
  | inl y ↦ rw y ((not_lower d.prio c.prio y, lower_all d.prio c.prio cs y s.0), s)
  | inr n ↦ rw n (All-insert d.prio c cs n s.0, insert-IsSorted c cs s.1)
]

-- `eris_list_push` in a list with priorities, none of whose nodes has a lower priority than a later
-- one, of a pointer that is not NULL, with a node that the list does not have: it returns 0 without a
-- fault, and no node of the list has a lower priority than a later one.
pub push-IsSorted :
    (new : Ptr) (h : Heap) (l : EList) (cs : List Cell) (item : Ptr) (prio : ℤ)
    → IsList h l cs
    → l.enable_prio ≡ true
    → IsSorted cs
    → Fresh new cs
    → new ≢ null
    → item ≢ null
    → (h' : Heap) × (l' : EList) × (cs' : List Cell) × (push new l item prio h
        ≡ some ((ok, l'), h'))
      × IsList h' l' cs'
      × IsSorted cs'
push-IsSorted new h l cs item prio r priorities s far there some_item =
    let (h', l', run, r') = push-insert new h l cs item prio r far there some_item in
    let cell : Cell = record { place = new; prio = prio; item = item } in
    (
      h',
      l',
      insert cell cs,
      run,
      subst
          (λ (b : Bool).
            IsList h' l' (
              if b then insert cell cs else record { place = new; prio = pos 0; item = item } ∷ cs))
          priorities r',
      insert-IsSorted cell cs s,
    )
