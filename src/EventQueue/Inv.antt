-- ===== src/EventQueue/Inv.antt =====
-- The representation invariant of the event queue.
use erishttp.Common.{
  ◌+◌, ◌-◌, ◌%◌, ◌<◌, ◌≡◌, ◌∙◌, sym, ap, Bool, true, false, some, arith, length, length-set,
  length-replicate, ok,
}
use native.Mathlib.Nat.{mod-add-mod}
use erishttp.EventQueue.{Elem, EventQueue, ℤ, vacant, chosen_max, init, stored, taken}

-- The positions lie in the pool, `near` is `count` places behind `front`, and one place is unused.
pub record IsValid (q : EventQueue) : Type 0 where
  pub pool : length q.events ≡ q.max
  pub front_in : q.front < q.max
  pub spare : q.count < q.max
  pub near_at : q.near ≡ (q.front + q.count) % q.max

-- A queue that `eris_event_queue_init` sets up is valid and empty, whatever size is asked for.
pub init-IsValid :
    (mutex cond granted : Bool) (m : ℤ) {q : EventQueue}
    → init mutex cond granted m ≡ (ok, some q)
    → IsValid q × (q.count ≡ 0)
unfolding init
init-IsValid false cond granted m h = ground arith
init-IsValid true false granted m h = ground arith
init-IsValid true true false m h = ground arith
init-IsValid true true true m h = ground (arith, length-replicate (chosen_max m) vacant)

pub stored-IsValid :
    {q : EventQueue} (e : Elem) → IsValid q → q.count + 1 < q.max → IsValid (stored q e)
stored-IsValid {q} e v h = record {
  pool = omega (arith, length-set q.events q.near e);
  front_in = v.front_in;
  spare = h;
  near_at =
      rw v.near_at (mod-add-mod (q.front + q.count) q.max 1 ∙ ap (λ k. k % q.max) (omega arith));
}

pub taken-IsValid : {q : EventQueue} → IsValid q → 0 < q.count → IsValid (taken q)
taken-IsValid {q} v h = record {
  pool = v.pool;
  front_in = omega arith;
  spare = omega arith;
  near_at =
      v.near_at
      ∙ ap (λ k. k % q.max) (omega arith)
      ∙ sym (mod-add-mod (q.front + 1) q.max (q.count - 1));
}
