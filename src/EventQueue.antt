-- ===== src/EventQueue.antt =====
-- src/event/eris.event_queue.c: the bounded queue of ready sockets between the event loop and the
-- tasks of a slave process. Every operation runs under the queue's mutex, so it is one step.
pub mod Inv
pub mod Fifo
pub mod Refine
pub mod Trace
pub mod Close
mod Tests
use erishttp.Common.{
  ℕ, zero, suc, ◌+◌, ◌-◌, ◌%◌, Bool, true, false, Option, none, some, List, [], ◌∷◌, ltb, leb, ◌==◌,
  if◌then◌else◌, get_elem?, set, replicate, Errno, ok, error, invalid, full, empty,
}

-- `eris_event_elem_t`, the two fields that the queue copies. `none` is the socket -1.
pub record Elem : Type 0 where
  pub sock : Option ℕ
  pub events : ℕ

-- `sock = -1`, `events = ERIS_EVENT_NONE`
abbrev pub vacant : Elem
vacant = record { sock = none; events = 0 }

-- `eris_event_queue_s` without its mutex and condition variable
pub record EventQueue : Type 0 where
  pub max : ℕ
  pub count : ℕ
  pub front : ℕ
  pub near : ℕ
  pub events : List Elem

-- The `__max` of `init`: an `int`, of which the code asks only whether it is positive.
pub data ℤ : Type 0 where
  pos : ℕ → ℤ
  negsuc : ℕ → ℤ

unfoldable pub chosen_max : ℤ → ℕ
chosen_max (pos n) = if ltb 0 n then n else 1024
chosen_max (negsuc n) = 1024

-- The three answers are those of `pthread_mutex_init`, `pthread_cond_init` and the allocator. The
-- queue comes back only when all succeed.
unfoldable pub init : Bool → Bool → Bool → ℤ → Errno × Option EventQueue
unfolding chosen_max
init false cond granted m = (error, none)
init true false granted m = (error, none)
init true true false m = (error, none)
init true true true m = (
  ok,
  some (record {
    max = chosen_max m;
    count = 0;
    front = 0;
    near = 0;
    events = replicate (chosen_max m) vacant;
  }),
)

-- `locked` is whether `pthread_mutex_lock` succeeds.
unfoldable pub capacity : Bool → EventQueue → Option ℕ
capacity true q = some (q.max - q.count)
capacity false q = none

unfoldable pub count : Bool → EventQueue → Option ℕ
count true q = some q.count
count false q = none

unfoldable pub is_full : Bool → EventQueue → Bool
is_full true q = leb q.max q.count
is_full false q = false

unfoldable pub is_empty : Bool → EventQueue → Bool
is_empty true q = leb q.count 0
is_empty false q = false

-- How a call of `put` or `get` ends, or that it waits on the condition variable, the mutex
-- released, to test again when it is woken.
pub data Outcome (A : Type 0) : Type 0 where
  returned : Errno → A → Outcome A
  waiting : Outcome A

-- the write and the new positions
abbrev pub stored : EventQueue → Elem → EventQueue
stored q e = record q {
  count = q.count + 1;
  near = (q.near + 1) % q.max;
  events = set q.events q.near e;
}

unfoldable pub put : Bool → EventQueue → Elem → Bool → Outcome EventQueue
put false q e wait = returned error q
put true q e wait =
    if leb q.max (q.count + 1)
    then if wait then waiting else returned full q
    else returned ok (stored q e)

abbrev pub taken : EventQueue → EventQueue
taken q = record q { count = q.count - 1; front = (q.front + 1) % q.max }

-- beside the queue, what goes through `__out_elem`
unfoldable pub get : Bool → EventQueue → Bool → Outcome (Option Elem × EventQueue)
get false q wait = returned error (none, q)
get true q wait =
    if q.count == 0
    then if wait then waiting else returned empty (none, q)
    else returned ok (get_elem? q.events q.front, taken q)

-- The closing loop of `destroy`, on its count: the sockets that it closes, in order, and the pool.
unfoldable pub close_loop : ℕ → ℕ → ℕ → List Elem → List (Option Elem) × List Elem
close_loop max zero i events = ([], events)
close_loop max (suc n) i events =
    let j = i + 1 in
    let (closed, events') = close_loop max n (if leb max j then 0 else j) (set events i vacant) in
    (get_elem? events i ∷ closed, events')

-- `front` is set to 0 before the loop reads it.
unfoldable pub destroy : EventQueue → List (Option Elem) × EventQueue
unfolding close_loop
destroy q =
    let (closed, events') = close_loop q.max q.count 0 q.events in
    (closed, record { max = 0; count = 0; front = 0; near = 0; events = [] })
