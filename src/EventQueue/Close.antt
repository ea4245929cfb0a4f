-- ===== src/EventQueue/Close.antt =====
-- `eris_event_queue_destroy`: which sockets it closes.
use erishttp.Common.{
  ℕ, zero, suc, ◌+◌, ◌≤◌, ◌<◌, ◌≡◌, refl, ◌∙◌, ap, Option, List, [], ◌∷◌, arith, get_elem?, set,
  leb, false,
}
use erishttp.EventQueue.{Elem, EventQueue, vacant, close_loop, destroy}
use erishttp.EventQueue.Inv.{IsValid}
use erishttp.EventQueue.Fifo.{get_elem?-set_miss}

-- the pool from place `i` on, `n` places
abbrev pub places : List Elem → ℕ → ℕ → List (Option Elem)
places events i zero = []
places events i (suc n) = get_elem? events i ∷ places events (i + 1) n

places-set :
    (events : List Elem) (e : Elem) (j i n : ℕ)
    → j < i
    → places (set events j e) i n ≡ places events i n
places-set events e j i zero h = refl
places-set events e j i (suc n) h =
    rw (get_elem?-set_miss events j i e (omega arith))
      (ap (λ t. get_elem? events i ∷ t) (places-set events e j (i + 1) n (omega arith)))

close_loop-places :
    (max n i : ℕ) (events : List Elem)
    → i + n ≤ max
    → (close_loop max n i events).0 ≡ places events i n
unfolding close_loop
close_loop-places max zero i events h = refl
close_loop-places max (suc zero) i events h = refl
close_loop-places max (suc (suc n)) i events h =
    let stay : leb max (i + 1) ≡ false = ground arith in
    rw stay (
      ap (λ t. get_elem? events i ∷ t)
        (close_loop-places max (suc n) (i + 1) (set events i vacant) (omega arith)
          ∙ places-set events vacant i (i + 1) (suc n) (omega arith)))

-- `eris_event_queue_destroy` of a valid queue closes the sockets in the first `count` places of the
-- pool, wherever the elements that are still queued stand, and leaves an empty queue.
pub destroy-places :
    {q : EventQueue}
    → IsValid q
    → ((destroy q).0 ≡ places q.events 0 q.count)
      × ((destroy q).1.count ≡ 0)
      × ((destroy q).1.events ≡ [])
unfolding destroy
destroy-places {q} v = (close_loop-places q.max q.count 0 q.events (omega arith), refl, refl)
