-- ===== src/EList.antt =====
-- src/core/eris.list.c: a doubly linked list with priorities. The list lives outside of the memory of
-- its nodes, so an operation that changes it returns the new one. An operation gets the node that the
-- allocator gives, which is NULL when there is no memory. A `comparison` is the call of the callback
-- with its argument, and tells whether it returned 0. The lock and the log are left out.
mod Tests
pub mod Memory
pub mod Seg
pub mod Join
pub mod Rep
pub mod Spec
pub mod Insert
pub mod Push
pub mod Sorted
pub mod Pop
pub mod Find
use erishttp.Common.{
  ℕ, zero, suc, ◌+◌, ◌-◌, Bool, true, false, not, Option, none, some, List, [], ◌∷◌, ℤ, pos, ltb_ℤ,
  ◌==◌, ltb, if◌then◌else◌, Errno, ok, error,
}
use erishttp.EList.Memory.{
  Ptr, null, node, Cmd, pure, ◌>>=◌, ◌>>◌, load, store, set_prev, set_next, set_item, free,
  unless_null,
}

-- `eris_list_t`
pub record EList : Type 0 where
  pub size : ℕ
  pub enable_prio : Bool
  pub head : Ptr
  pub tail : Ptr

abbrev pub init : Bool → EList
init enable_prio = record { size = 0; enable_prio = enable_prio; head = null; tail = null }

-- `eris_list_size`
abbrev pub size_of : Option EList → ℕ
size_of none = 0
size_of (some l) = l.size

-- The first node, from `cur` on, with a lower priority; NULL if there is none.
unfoldable pub find_lower : ℕ → ℤ → Ptr → Cmd Ptr
find_lower zero prio cur = λ h. none
find_lower (suc rounds) prio cur = do
  n ← load cur
  if ltb_ℤ n.prio prio
      then pure cur
      else (if n.next == null then pure null else find_lower rounds prio n.next)

-- The last node, from `cur` back, that has no lower priority.
unfoldable pub find_higher : ℕ → ℤ → Ptr → Cmd Ptr
find_higher zero prio cur = λ h. none
find_higher (suc rounds) prio cur = do
  n ← load cur
  if not (ltb_ℤ n.prio prio)
      then pure cur
      else (if n.prev == null then pure null else find_higher rounds prio n.prev)

abbrev pub only : Ptr → EList → EList
only new l = record l { head = new; tail = new; size = l.size + 1 }

-- prev <--> new <--> current
abbrev pub insert_before : Ptr → Ptr → EList → Cmd EList
insert_before new cur l = do
  n ← load cur
  set_prev new n.prev
  unless_null n.prev (set_next n.prev new)
  set_prev cur new
  set_next new cur
  pure (record l { head = if cur == l.head then new else l.head; size = l.size + 1 })

-- current <--> new <--> next
abbrev pub insert_behind : Ptr → Ptr → EList → Cmd EList
insert_behind new cur l = do
  n ← load cur
  set_next new n.next
  unless_null n.next (set_prev n.next new)
  set_next cur new
  set_prev new cur
  pure (record l { tail = if cur == l.tail then new else l.tail; size = l.size + 1 })

abbrev pub add_last : Ptr → EList → Cmd EList
add_last new l = do
  set_prev new l.tail
  set_next l.tail new
  pure (record l { tail = new; size = l.size + 1 })

abbrev pub add_first : Ptr → EList → Cmd EList
add_first new l = do
  set_next new l.head
  set_prev l.head new
  pure (record l { head = new; size = l.size + 1 })

abbrev pub push_prio : Ptr → ℤ → EList → Cmd EList
push_prio new prio l = if l.head == null then pure (only new l) else do
  cur ← find_lower l.size prio l.head
  if cur == null then add_last new l else insert_before new cur l

abbrev pub push_plain : Ptr → EList → Cmd EList
push_plain new l = do
  set_next new l.head
  unless_null l.head (set_prev l.head new)
  pure (record l { head = new; tail = if l.size == 0 then new else l.tail; size = l.size + 1 })

abbrev pub push_new : (enable_prio : Bool) → Ptr → Ptr → ℤ → EList → Cmd EList
push_new true new item prio l = do store new (node prio item null null); push_prio new prio l
push_new false new item prio l = do store new (node (pos 0) item null null); push_plain new l

-- `new` is the node that was allocated. Without priorities a node keeps the priority 0.
unfoldable pub push : Ptr → EList → Ptr → ℤ → Cmd (Errno × EList)
push new l item prio =
    if item == null
    then pure (ok, l)
    else if new == null
    then pure (error, l)
    else do l' ← push_new l.enable_prio new item prio l; pure (ok, l')

abbrev pub push_back_prio : Ptr → ℤ → EList → Cmd EList
push_back_prio new prio l = if l.size == 0 then pure (only new l) else do
  cur ← find_higher l.size prio l.tail
  if cur == null then add_first new l else insert_behind new cur l

abbrev pub push_back_plain : Ptr → EList → Cmd EList
push_back_plain new l = do
  set_prev new l.tail
  unless_null l.tail (set_next l.tail new)
  pure (record l { tail = new; head = if l.size == 0 then new else l.head; size = l.size + 1 })

abbrev pub push_back_new : (enable_prio : Bool) → Ptr → Ptr → ℤ → EList → Cmd EList
push_back_new true new item prio l = do
  store new (node prio item null null)
  push_back_prio new prio l
push_back_new false new item prio l = do
  store new (node (pos 0) item null null)
  push_back_plain new l

unfoldable pub push_back : Ptr → EList → Ptr → ℤ → Cmd (Errno × EList)
push_back new l item prio =
    if item == null
    then pure (ok, l)
    else if new == null
    then pure (error, l)
    else do l' ← push_back_new l.enable_prio new item prio l; pure (ok, l')

-- `eris_list_append`
unfoldable pub append : Ptr → EList → Ptr → ℤ → Cmd (Errno × EList)
unfolding push_back
append new l item prio = push_back new l item prio

-- Freeing `head->prev` sets it to NULL. The result is the pointer in the node, or NULL.
unfoldable pub pop : EList → Cmd (Ptr × EList)
pop l = if l.head == null then pure (null, l) else do
  n ← load l.head
  if l.size == 1
      then (do free l.head; pure (n.item, record l { head = null; tail = null; size = l.size - 1 }))
      else (do
        m ← load n.next
        unless_null m.prev (free m.prev)
        set_prev n.next null
        pure (n.item, record l { head = n.next; size = l.size - 1 }))

-- With one node, `head` keeps its value.
unfoldable pub pop_back : EList → Cmd (Ptr × EList)
pop_back l = if l.tail == null then pure (null, l) else do
  n ← load l.tail
  if l.size == 1
      then (do free l.tail; pure (n.item, record l { tail = null; size = l.size - 1 }))
      else (do
        m ← load n.prev
        unless_null m.next (free m.next)
        set_next n.prev null
        pure (n.item, record l { tail = n.prev; size = l.size - 1 }))

-- `cur` from the head on, or NULL
unfoldable pub search_next : (comparison : Ptr → Bool) → ℕ → Ptr → Cmd Ptr
search_next comparison zero cur = λ h. none
search_next comparison (suc rounds) cur = do
  n ← load cur
  if comparison n.item
      then pure cur
      else (if n.next == null then pure null else search_next comparison rounds n.next)

unfoldable pub search_prev : (comparison : Ptr → Bool) → ℕ → Ptr → Cmd Ptr
search_prev comparison zero cur = λ h. none
search_prev comparison (suc rounds) cur = do
  n ← load cur
  if comparison n.item
      then pure cur
      else (if n.prev == null then pure null else search_prev comparison rounds n.prev)

abbrev pub item_of : Ptr → Cmd Ptr
item_of cur = if cur == null then pure null else (do n ← load cur; pure n.item)

unfoldable pub find : (comparison : Ptr → Bool) → EList → Cmd Ptr
find comparison l =
    if ltb 0 l.size then (search_next comparison l.size l.head >>= item_of) else pure null

unfoldable pub rfind : (comparison : Ptr → Bool) → EList → Cmd Ptr
rfind comparison l =
    if ltb 0 l.size then (search_prev comparison l.size l.tail >>= item_of) else pure null

-- The node leaves the list at its ends only: the neighbours of a node in the middle keep their
-- pointers to it.
abbrev pub drop_head : Ptr → EList → Cmd EList
drop_head cur l =
    if cur == l.head
    then (do
      n ← load l.head
      unless_null n.next (set_prev n.next null)
      pure (record l { head = n.next }))
    else pure l

abbrev pub drop_tail : Ptr → EList → Cmd EList
drop_tail cur l =
    if cur == l.tail
    then (do
      n ← load l.tail
      unless_null n.prev (set_next n.prev null)
      pure (record l { tail = n.prev }))
    else pure l

abbrev pub unlink : Ptr → EList → Cmd EList
unlink cur l = do
  l1 ← drop_head cur l
  l2 ← drop_tail cur l1
  free cur
  pure (record l2 { size = l2.size - 1 })

unfoldable pub remove : (comparison : Ptr → Bool) → EList → Cmd (Ptr × EList)
remove comparison l =
    if ltb 0 l.size
    then (do
      cur ← search_prev comparison l.size l.tail
      if cur == null
          then pure (null, l)
          else (do n ← load cur; set_item cur null; l' ← unlink cur l; pure (n.item, l')))
    else pure (null, l)

-- The result has the pointer that the callback frees, or NULL.
unfoldable pub erase : (comparison : Ptr → Bool) (free_cb : Bool) → EList → Cmd (Ptr × EList)
erase comparison free_cb l =
    if ltb 0 l.size
    then (do
      cur ← search_prev comparison l.size l.tail
      if cur == null then pure (null, l) else (do
        n ← load cur
        if free_cb then set_item cur null else pure tt
        l' ← unlink cur l
        pure (if free_cb then n.item else null, l')))
    else pure (null, l)

unfoldable pub cleanup_loop : ℕ → Ptr → Cmd (List Ptr)
cleanup_loop zero cur = λ h. none
cleanup_loop (suc rounds) cur = do
  n ← load cur
  free cur
  items ← if n.next == null then pure [] else cleanup_loop rounds n.next
  pure (n.item ∷ items)

-- The pointers that the callback gets, in their order, if there is a callback.
unfoldable pub cleanup : (free_cb : Bool) → EList → Cmd (List Ptr × EList)
cleanup free_cb l = do
  items ← if l.head == null then pure [] else cleanup_loop l.size l.head
  pure (if free_cb then items else [], record l { head = null; tail = null; size = 0 })

unfoldable pub destroy : (free_cb : Bool) → EList → Cmd (List Ptr × EList)
unfolding cleanup
destroy free_cb l = do
  (items, l') ← cleanup free_cb l
  pure (items, record l' { enable_prio = false })

-- `eris_list_iter_t` is its node.
abbrev pub iter_init : Option EList → Ptr
iter_init none = null
iter_init (some l) = l.head

abbrev pub iter_reset : Option EList → Ptr
iter_reset none = null
iter_reset (some l) = l.head

unfoldable pub iter_next : Ptr → Cmd (Ptr × Ptr)
iter_next iter =
    if iter == null then pure (null, iter) else (do n ← load iter; pure (n.item, n.next))

-- It goes to the next node, too.
unfoldable pub iter_prev : Ptr → Cmd (Ptr × Ptr)
iter_prev iter =
    if iter == null then pure (null, iter) else (do n ← load iter; pure (n.item, n.next))
