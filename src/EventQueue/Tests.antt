-- ===== src/EventQueue/Tests.antt =====
-- Runs of the event queue, and the theorems at concrete queues.
use erishttp.Common.{ℕ, ◌≡◌, refl, true, false, some, List, [], ◌∷◌, ◌++◌, map, arith, full}
use erishttp.EventQueue.{
  Elem, EventQueue, pos, negsuc, vacant, init, put, get, returned, capacity, is_full,
}
use erishttp.EventQueue.Inv.{IsValid}
use erishttp.EventQueue.Fifo.{contents}
use erishttp.EventQueue.Refine.{
  offer, poll, map_outcome, view, put_refines, get_refines, full-is_full,
}
use erishttp.EventQueue.Trace.{Call, produce, consume, run, run-fifo}

abbrev elem : ℕ → Elem
elem n = record { sock = some n; events = 2 }

abbrev fresh : EventQueue
fresh = record { max = 3; count = 0; front = 0; near = 0; events = vacant ∷ vacant ∷ vacant ∷ [] }

-- two elements, the second behind the end of the pool
abbrev wrapped : EventQueue
wrapped = record { max = 3; count = 2; front = 2; near = 1; events = elem 8 ∷ vacant ∷ elem 7 ∷ [] }

wrapped-IsValid : IsValid wrapped
wrapped-IsValid = omega arith

fresh-IsValid : IsValid fresh
fresh-IsValid = omega arith

init_default : init true true true (negsuc 4) ≡ init true true true (pos 1024)
unfolding init
init_default = refl

contents-wrapped : contents wrapped ≡ some (elem 7) ∷ some (elem 8) ∷ []
contents-wrapped = refl

-- two elements fill a pool of three
put_refused : put true wrapped (elem 9) false ≡ returned full wrapped
unfolding put
put_refused = refl

put_refines_example :
    map_outcome contents (put true wrapped (elem 9) true)
    ≡ offer 2 (some (elem 7) ∷ some (elem 8) ∷ []) (elem 9) true
put_refines_example = put_refines (elem 9) true wrapped-IsValid

get_refines_example :
    map_outcome view (get true wrapped false) ≡ poll (some (elem 7) ∷ some (elem 8) ∷ []) false
get_refines_example = get_refines false wrapped-IsValid

full-is_full_example : (is_full true wrapped ≡ false) × (capacity true wrapped ≡ some 1)
full-is_full_example = full-is_full (elem 9) wrapped-IsValid put_refused

abbrev calls : List Call
calls =
    produce (elem 1) true
    ∷ consume false
    ∷ consume true
    ∷ produce (elem 2) false
    ∷ produce (elem 3) true
    ∷ produce (elem 4) true
    ∷ consume true
    ∷ []

run_delivers : (run fresh calls).delivered ≡ some (elem 1) ∷ some (elem 2) ∷ []
unfolding run put get
run_delivers = refl

run-fifo_example :
    let h = run fresh calls in
    ([] ++ map some h.accepted ≡ h.delivered ++ contents h.final) × IsValid h.final
run-fifo_example = run-fifo calls fresh-IsValid
