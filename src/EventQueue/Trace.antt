-- ===== src/EventQueue/Trace.antt =====
-- Any number of threads on one event queue: since each call runs under the mutex, an execution is
-- a list of calls. A call that has to wait changes nothing, and stands in the list again where it is
-- woken and tests again.
use erishttp.Common.{
  ◌+◌, ◌<◌, ◌≡◌, refl, sym, ◌∙◌, ap, subst, Bool, true, false, Option, some, none, List, [], ◌∷◌,
  ◌++◌, map, append_assoc, append-nil, arith, ◌==◌, leb, if◌then◌else◌, Bool-cases, inl, inr,
  get_elem?, ok, full, empty, ◌⊎◌,
}
use erishttp.EventQueue.{Elem, EventQueue, stored, taken, put, get, Outcome, returned, waiting}
use erishttp.EventQueue.Inv.{IsValid, stored-IsValid, taken-IsValid}
use erishttp.EventQueue.Fifo.{contents, contents-stored, contents-taken}

-- A call by some thread: `put` of an element or `get`, with its `__wait`.
pub data Call : Type 0 where
  produce : Elem → Bool → Call
  consume : Bool → Call

-- the elements that calls of `put` stored, and what calls of `get` handed out, in order
pub record History : Type 0 where
  pub accepted : List Elem
  pub delivered : List (Option Elem)
  pub final : EventQueue

abbrev pub accept : Elem → History → History
accept e h = record h { accepted = e ∷ h.accepted }

abbrev pub deliver : Option Elem → History → History
deliver x h = record h { delivered = x ∷ h.delivered }

-- How the run goes on after a call: from the new queue after a success, else from the old one. The
-- queue that a failing call hands back is not looked at.
abbrev after_put : Elem → EventQueue → (EventQueue → History) → Outcome EventQueue → History
after_put e q rest (returned ok q') = accept e (rest q')
after_put e q rest _ = rest q

abbrev after_get :
    EventQueue → (EventQueue → History) → Outcome (Option Elem × EventQueue) → History
after_get q rest (returned ok (x, q')) = deliver x (rest q')
after_get q rest _ = rest q

unfoldable pub run : EventQueue → List Call → History
run q [] = record { accepted = []; delivered = []; final = q }
run q (produce e wait ∷ calls) = after_put e q (λ r. run r calls) (put true q e wait)
run q (consume wait ∷ calls) = after_get q (λ r. run r calls) (get true q wait)

-- what the calls from `q` on keep
abbrev Keeps : EventQueue → History → Type 0
Keeps q h = (contents q ++ map some h.accepted ≡ h.delivered ++ contents h.final) × IsValid h.final

put-cases :
    {q : EventQueue} (e : Elem) (wait : Bool)
    → IsValid q
    → ((put true q e wait ≡ returned ok (stored q e)) × IsValid (stored q e))
      ⊎ ((put true q e wait ≡ waiting) ⊎ (put true q e wait ≡ returned full q))
unfolding put
put-cases {q} e wait v = elim (Bool-cases (leb q.max (q.count + 1))) [
  | inl at_limit ↦ rw at_limit (inr (held wait))
  | inr room ↦ rw room (inl (refl, stored-IsValid e v (ground arith)))
]
  where
    held :
        (w : Bool)
        → ((if w then waiting else returned full q) ≡ waiting)
          ⊎ ((if w then waiting else returned full q) ≡ returned full q)
    held true = inl refl
    held false = inr refl

get-cases :
    {q : EventQueue} (wait : Bool)
    → IsValid q
    → ((get true q wait ≡ returned ok (get_elem? q.events q.front, taken q))
        × IsValid (taken q)
        × (contents q ≡ get_elem? q.events q.front ∷ contents (taken q)))
      ⊎ ((get true q wait ≡ waiting) ⊎ (get true q wait ≡ returned empty (none, q)))
unfolding get
get-cases {q} wait v = elim (Bool-cases (q.count == 0)) [
  | inl none_left ↦ rw none_left (inr (held wait))
  | inr some_left ↦
      let p : 0 < q.count = ground arith in
      rw some_left (inl (refl, taken-IsValid v p, contents-taken v p))
]
  where
    nothing : Bool → Outcome (Option Elem × EventQueue)
    nothing w = if w then waiting else returned empty (none, q)

    held : (w : Bool) → (nothing w ≡ waiting) ⊎ (nothing w ≡ returned empty (none, q))
    held true = inl refl
    held false = inr refl

-- Nothing is lost, invented, doubled or reordered: in every sequence of calls on a valid queue, what
-- it held followed by what `put` stored is what `get` handed out followed by what it holds at the
-- end, and the queue is valid at the end.
pub run-fifo :
    (calls : List Call) {q : EventQueue}
    → IsValid q
    → let h = run q calls in
      (contents q ++ map some h.accepted ≡ h.delivered ++ contents h.final) × IsValid h.final
unfolding run
run-fifo [] {q} v = (append-nil (contents q), v)
run-fifo (produce e wait ∷ calls) {q} v = elim (put-cases e wait v) [
  | inl (done, v') ↦
      let (same, w) = run-fifo calls v' in
      along done (
        sym (append_assoc (contents q) (some e ∷ []) (map some (run (stored q e) calls).accepted))
            ∙ ap (λ t. t ++ map some (run (stored q e) calls).accepted) (sym (contents-stored e v))
            ∙ same,
        w,
      )
  | inr (inl waits) ↦ along waits (run-fifo calls v)
  | inr (inr refused) ↦ along refused (run-fifo calls v)
]
  where
    along :
        {o : Outcome EventQueue}
        → put true q e wait ≡ o
        → Keeps q (after_put e q (λ r. run r calls) o)
        → Keeps q (after_put e q (λ r. run r calls) (put true q e wait))
    along h = subst (λ o. Keeps q (after_put e q (λ r. run r calls) o)) (sym h)
run-fifo (consume wait ∷ calls) {q} v = elim (get-cases wait v) [
  | inl (done, v', front) ↦
      let (same, w) = run-fifo calls v' in
      along done (
        ap (λ t. t ++ map some (run (taken q) calls).accepted) front
            ∙ ap (λ t. get_elem? q.events q.front ∷ t) same,
        w,
      )
  | inr (inl waits) ↦ along waits (run-fifo calls v)
  | inr (inr refused) ↦ along refused (run-fifo calls v)
]
  where
    along :
        {o : Outcome (Option Elem × EventQueue)}
        → get true q wait ≡ o
        → Keeps q (after_get q (λ r. run r calls) o)
        → Keeps q (after_get q (λ r. run r calls) (get true q wait))
    along h = subst (λ o. Keeps q (after_get q (λ r. run r calls) o)) (sym h)
