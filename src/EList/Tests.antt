-- ===== src/EList/Tests.antt =====
-- The theorems on lists at concrete nodes.
use erishttp.Common.{◌≡◌, refl, true, false, none, some, List, [], ◌∷◌, pos, ok, arith, ◌==◌}
use erishttp.EList.Sorted.{push-IsSorted}
use erishttp.EList.Memory.{Heap, null, node, update}
use erishttp.EList.{EList, push, pop, pop_back, find, remove}
use erishttp.EList.Seg.{Cell}
use erishttp.EList.Rep.{IsList}
use erishttp.EList.Spec.{insert, IsSorted}
use erishttp.EList.Push.{push-insert}
use erishttp.EList.Pop.{pop-cons, pop_back-snoc, pop-pop_back}
use erishttp.EList.Find.{found, find-found, find-remove_middle}

abbrev high : Cell
high = record { place = 1; prio = pos 9; item = 101 }

abbrev middle : Cell
middle = record { place = 2; prio = pos 5; item = 102 }

abbrev low : Cell
low = record { place = 3; prio = pos 1; item = 103 }

abbrev nothing : Heap
nothing p = none

abbrev two_nodes : Heap
two_nodes =
    update (update nothing 1 (some (node (pos 9) 101 null 3))) 3 (some (node (pos 1) 103 1 null))

abbrev two : EList
two = record { size = 2; enable_prio = true; head = 1; tail = 3 }

two-IsList : IsList two_nodes two (high ∷ low ∷ [])
two-IsList = record { chain = ground arith; head = refl; tail = refl; counted = refl }

push-insert_example :
    (h' : Heap) × (l' : EList) × (push 2 two 102 (pos 5) two_nodes ≡ some ((ok, l'), h'))
    × IsList h' l' (insert middle (high ∷ low ∷ []))
push-insert_example =
    push-insert 2 two_nodes two (high ∷ low ∷ []) 102 (pos 5) two-IsList (omega arith) (omega arith)
      (omega arith)

push-IsSorted_example :
    (h' : Heap) × (l' : EList) × (cs' : List Cell) × (push 2 two 102 (pos 5) two_nodes
      ≡ some ((ok, l'), h'))
    × IsList h' l' cs'
    × IsSorted cs'
push-IsSorted_example =
    push-IsSorted 2 two_nodes two (high ∷ low ∷ []) 102 (pos 5) two-IsList refl
      ((refl, tt), (tt, tt)) (omega arith) (omega arith) (omega arith)

pop-cons_example :
    (h' : Heap) × (l' : EList) × (pop two two_nodes ≡ some ((101, l'), h'))
    × IsList h' l' (low ∷ [])
pop-cons_example = pop-cons two_nodes two high (low ∷ []) two-IsList

pop_back-snoc_example :
    (h' : Heap) × (l' : EList) × (pop_back two two_nodes ≡ some ((103, l'), h'))
    × IsList h' l' (high ∷ [])
pop_back-snoc_example = pop_back-snoc two_nodes two high [] low two-IsList

abbrev one_node : Heap
one_node = update nothing 1 (some (node (pos 9) 101 null null))

abbrev one : EList
one = record { size = 1; enable_prio = true; head = 1; tail = 1 }

one-IsList : IsList one_node one (high ∷ [])
one-IsList = record { chain = ground arith; head = refl; tail = refl; counted = refl }

pop-pop_back_example :
    (h' : Heap) × (l' : EList) × (pop_back one one_node ≡ some ((101, l'), h'))
    × (l'.head ≡ 1)
    × (h' 1 ≡ none)
    × (pop l' h' ≡ none)
pop-pop_back_example = pop-pop_back one_node one high one-IsList

abbrev three_nodes : Heap
three_nodes =
    update
      (update (update nothing 1 (some (node (pos 9) 101 null 2))) 2 (some (node (pos 5) 102 1 3))) 3
      (some (node (pos 1) 103 2 null))

abbrev three : EList
three = record { size = 3; enable_prio = true; head = 1; tail = 3 }

three-IsList : IsList three_nodes three (high ∷ middle ∷ low ∷ [])
three-IsList = record { chain = ground arith; head = refl; tail = refl; counted = refl }

find-found_example :
    find (λ p. p == 102) three three_nodes
    ≡ some (found (λ p. p == 102) (high ∷ middle ∷ low ∷ []), three_nodes)
find-found_example =
    find-found (λ p. p == 102) three_nodes three (high ∷ middle ∷ low ∷ []) three-IsList

find-remove_middle_example :
    (h' : Heap) × (l' : EList) × (remove (λ p. p == 102) three three_nodes ≡ some ((102, l'), h'))
    × (h' 2 ≡ none)
    × (find (λ p. false) l' h' ≡ none)
find-remove_middle_example =
    find-remove_middle (λ p. p == 102) three_nodes three high middle low three-IsList refl refl
