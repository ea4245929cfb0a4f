-- ===== src/EList/Memory.antt =====
-- The nodes of src/core/eris.list.c in memory, and commands on them.
use erishttp.Common.{ℕ, ◌≡◌, ap, Option, none, some, ℤ, ◌==◌, if◌then◌else◌}

-- A pointer; 0 is NULL.
abbrev pub Ptr : Type 0
Ptr = ℕ

abbrev pub null : Ptr
null = 0

-- `eris_list_node_t`; `item` is the pointer `data`
pub record Node : Type 0 where
  pub prio : ℤ
  pub item : Ptr
  pub prev : Ptr
  pub next : Ptr

abbrev pub node : ℤ → Ptr → Ptr → Ptr → Node
node prio item prev next = record { prio = prio; item = item; prev = prev; next = next }

-- the nodes that are allocated
abbrev pub Heap : Type 0
Heap = Ptr → Option Node

-- `none` is an access through NULL or to a node that is not allocated, or a loop that has not ended.
abbrev pub Cmd : Type 0 → Type 0
Cmd A = Heap → Option (A × Heap)

abbrev pub pure : {A : Type 0} → A → Cmd A
pure a h = some (a, h)

-- what `>>=` does with the outcome of its first command
abbrev pub next_command : {A B : Type 0} → Option (A × Heap) → (A → Cmd B) → Option (B × Heap)
next_command none f = none
next_command (some (a, h)) f = f a h

infixl 5 ◌>>=◌ ◌>>◌
abbrev pub ◌>>=◌ : {A B : Type 0} → Cmd A → (A → Cmd B) → Cmd B
◌>>=◌ m f h = next_command (m h) f

abbrev pub ◌>>◌ : {B : Type 0} → Cmd (Unit {0}) → Cmd B → Cmd B
m >> k = m >>= λ _. k

-- A command that runs is followed by the next one.
pub bind_run :
    {A B : Type 0} (m : Cmd A) (f : A → Cmd B) (h : Heap) {a : A} {h' : Heap}
    → m h ≡ some (a, h')
    → (m >>= f) h ≡ f a h'
bind_run m f h run = ap (λ o. next_command o f) run

abbrev pub update : Heap → Ptr → Option Node → Heap
update h p v q = if p == q then v else h q

abbrev pub loaded : Heap → Option Node → Option (Node × Heap)
loaded h none = none
loaded h (some n) = some (n, h)

unfoldable pub load : Ptr → Cmd Node
load p h = if p == null then none else loaded h (h p)

unfoldable pub store : Ptr → Node → Cmd (Unit {0})
store p n h = some (tt, update h p (some n))

unfoldable pub set_prev : Ptr → Ptr → Cmd (Unit {0})
unfolding load store
set_prev p q = load p >>= λ n. store p (record n { prev = q })

unfoldable pub set_next : Ptr → Ptr → Cmd (Unit {0})
unfolding load store
set_next p q = load p >>= λ n. store p (record n { next = q })

unfoldable pub set_item : Ptr → Ptr → Cmd (Unit {0})
unfolding load store
set_item p q = load p >>= λ n. store p (record n { item = q })

-- `eris_list_delete_node` of a pointer that is not NULL
unfoldable pub free : Ptr → Cmd (Unit {0})
unfolding load
free p = load p >>= λ n h. some (tt, update h p none)

-- a write that is done only if the pointer is not NULL
abbrev pub unless_null : Ptr → Cmd (Unit {0}) → Cmd (Unit {0})
unless_null p m = if p == null then pure tt else m
