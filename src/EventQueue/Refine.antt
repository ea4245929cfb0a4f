-- ===== src/EventQueue/Refine.antt =====
-- One call of the event queue against a first-in first-out queue of bounded length.
use erishttp.Common.{
  ℕ, ◌+◌, ◌-◌, ◌≡◌, refl, sym, ap, Bool, true, false, Option, some, none, List, [], ◌∷◌, ◌++◌,
  arith, length, leb, ◌==◌, if◌then◌else◌, Bool-cases, inl, inr, ok, full, empty,
}
use erishttp.EventQueue.{Elem, EventQueue, put, get, Outcome, returned, waiting, capacity, is_full}
use erishttp.EventQueue.Inv.{IsValid}
use erishttp.EventQueue.Fifo.{contents, length-slots, contents-stored, contents-taken}

-- The promise: at most `cap` elements, oldest first.
unfoldable pub offer : ℕ → List (Option Elem) → Elem → Bool → Outcome (List (Option Elem))
offer cap xs e wait =
    if leb cap (length xs)
    then if wait then waiting else returned full xs
    else returned ok (xs ++ (some e ∷ []))

unfoldable pub poll : List (Option Elem) → Bool → Outcome (Option Elem × List (Option Elem))
poll [] wait = if wait then waiting else returned empty (none, [])
poll (x ∷ xs) wait = returned ok (x, xs)

abbrev pub map_outcome : {A B : Type 0} → (A → B) → Outcome A → Outcome B
map_outcome f (returned rc a) = returned rc (f a)
map_outcome f waiting = waiting

-- `eris_event_queue_put` on a valid queue, its mutex taken, is the insertion into the queue of its
-- contents bounded by `max - 1`: the same return code or the same wait, and the same contents after.
pub put_refines :
    {q : EventQueue} (e : Elem) (wait : Bool)
    → IsValid q
    → map_outcome contents (put true q e wait) ≡ offer (q.max - 1) (contents q) e wait
unfolding put offer
put_refines {q} e wait v =
    let l : length (contents q) ≡ q.count = length-slots q.max q.events q.front q.count in
    rw l (elim (Bool-cases (leb q.max (q.count + 1))) [
      | inl at_limit ↦
          let s : leb (q.max - 1) q.count ≡ true = ground arith in rw (at_limit, s) (held wait)
      | inr room ↦
          let s : leb (q.max - 1) q.count ≡ false = ground arith in
          rw (room, s) (ap (returned ok) (contents-stored e v))
    ])
  where
    held :
        (w : Bool)
        → map_outcome contents (if w then waiting else returned full q)
          ≡ (if w then waiting else returned full (contents q))
    held true = refl
    held false = refl

poll-nil :
    (xs : List (Option Elem)) (wait : Bool)
    → length xs ≡ 0
    → poll xs wait ≡ (if wait then waiting else returned empty (none, xs))
unfolding poll
poll-nil [] wait h = refl
poll-nil (x ∷ xs) wait h = absurd (omega arith)

poll-cons :
    {xs ys : List (Option Elem)} {x : Option Elem} (wait : Bool)
    → xs ≡ x ∷ ys
    → poll xs wait ≡ returned ok (x, ys)
unfolding poll
poll-cons wait e = rw e

abbrev pub view : Option Elem × EventQueue → Option Elem × List (Option Elem)
view (out, q) = (out, contents q)

-- `eris_event_queue_get` on a valid queue, its mutex taken, is the removal of the oldest element of
-- its contents: the same return code or the same wait, the same element, and the same contents after.
pub get_refines :
    {q : EventQueue} (wait : Bool)
    → IsValid q
    → map_outcome view (get true q wait) ≡ poll (contents q) wait
unfolding get
get_refines {q} wait v = elim (Bool-cases (q.count == 0)) [
  | inl none_left ↦
      let l : length (contents q) ≡ 0 =
        ground (arith, length-slots q.max q.events q.front q.count) in
      rw (none_left, poll-nil (contents q) wait l) (held wait)
  | inr some_left ↦ rw some_left (sym (poll-cons wait (contents-taken v (ground arith))))
]
  where
    held :
        (w : Bool)
        → map_outcome view (if w then waiting else returned empty (none, q))
          ≡ (if w then waiting else returned empty (none, contents q))
    held true = refl
    held false = refl

-- When a valid queue refuses an element as full, `eris_event_queue_isfull` still answers false and
-- `eris_event_queue_capacity` still answers 1.
pub full-is_full :
    {q : EventQueue} (e : Elem)
    → IsValid q
    → put true q e false ≡ returned full q
    → (is_full true q ≡ false) × (capacity true q ≡ some 1)
unfolding put is_full capacity
full-is_full e v h = ground arith
