-- ===== src/EList/Spec.antt =====
-- A list with priorities as a sequence: the highest priority first, and among equal priorities the
-- oldest first.
use erishttp.Common.{
  ◌≡◌, refl, ap, false, List, [], ◌∷◌, ◌++◌, ℤ, ltb_ℤ, if◌then◌else◌, Bool-cases, inl, inr, All,
}
use erishttp.EList.Seg.{Cell}

abbrev pub insert : Cell → List Cell → List Cell
insert c [] = c ∷ []
insert c (d ∷ ds) = let rest = insert c ds in if ltb_ℤ d.prio c.prio then c ∷ d ∷ ds else d ∷ rest

-- the nodes in front of the first with a lower priority, and the others
abbrev pub above : ℤ → List Cell → List Cell
above p [] = []
above p (d ∷ ds) = let rest = above p ds in if ltb_ℤ d.prio p then [] else d ∷ rest

abbrev pub below : ℤ → List Cell → List Cell
below p [] = []
below p (d ∷ ds) = let rest = below p ds in if ltb_ℤ d.prio p then d ∷ ds else rest

pub above-below : (p : ℤ) (cs : List Cell) → above p cs ++ below p cs ≡ cs
above-below p [] = refl
above-below p (d ∷ ds) = elim (Bool-cases (ltb_ℤ d.prio p)) [
  | inl k ↦ rw k refl
  | inr k ↦ rw k (ap (λ t. d ∷ t) (above-below p ds))
]

pub insert-above :
    (c : Cell) (cs : List Cell) → insert c cs ≡ above c.prio cs ++ (c ∷ below c.prio cs)
insert-above c [] = refl
insert-above c (d ∷ ds) = elim (Bool-cases (ltb_ℤ d.prio c.prio)) [
  | inl k ↦ rw k refl
  | inr k ↦ rw k (ap (λ t. d ∷ t) (insert-above c ds))
]

-- No node has a lower priority than a later one.
abbrev pub IsSorted : List Cell → Type 0
IsSorted [] = Unit
IsSorted (c ∷ cs) = All (λ d. ltb_ℤ c.prio d.prio ≡ false) cs × IsSorted cs
