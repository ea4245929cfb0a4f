-- ===== src/PeTree.antt =====
-- src/core/eris.petree.c: paths such as `http.service[1].name` as a chain of elements.
mod Tests
pub mod Parser
pub mod Proper
pub mod Index
pub mod Runs
pub mod RoundTrip
pub mod Sound
use erishttp.Common.{
  ℕ, suc, ◌+◌, Bool, true, false, Option, none, some, List, [], ◌∷◌, ◌++◌, ℤ, pos, negsuc,
  if◌then◌else◌, Errno, ok, error, alloc,
}
use erishttp.EString.Reverse.{reversed}
use erishttp.EString.Number.{digits}

-- `eris_petree_e_t`. An element of type ERIS_PETREE_STRING has a key and the index 0, one of type
-- ERIS_PETREE_INTEGER has an index and no key.
pub data Element : Type 0 where
  integer : ℤ → Element
  string : List ℕ → Element

-- `eris_petree_t`: the elements from `head` on through `child`
pub record PeTree : Type 0 where
  pub count : ℕ
  pub level : ℕ
  pub head : List Element

abbrev pub init : PeTree
init = record { count = 0; level = 0; head = [] }

-- Both free every element.
unfoldable pub cleanup : PeTree → PeTree
cleanup t = record { count = 0; level = 0; head = [] }

unfoldable pub destroy : PeTree → PeTree
destroy t = record { count = 0; level = 0; head = [] }

-- a new element at the end of the chain
abbrev pub push : Element → PeTree → PeTree
push e t = record { count = t.count + 1; level = t.level + 1; head = t.head ++ (e ∷ []) }

-- the dot in front of a key
abbrev pub dot_before : List Element → List ℕ
dot_before (string k ∷ es) = b'.' ∷ []
dot_before es = []

-- `printed` says of an index whether there was memory for its digits. If there was none, the
-- conversion returns 0 all the same.
abbrev pub index_text : Bool → ℤ → List ℕ
index_text printed (negsuc n) = b'[' ∷ b'*' ∷ b']' ∷ []
index_text true (pos n) = b'[' ∷ (reversed (digits 20 n) ++ (b']' ∷ []))
index_text false (pos n) = b'[' ∷ b']' ∷ []

unfoldable pub dump_loop : (ℕ → Bool) → ℕ → List Element → List ℕ
dump_loop printed i [] = []
dump_loop printed i (string k ∷ es) = k ++ (dot_before es ++ dump_loop printed (suc i) es)
dump_loop printed i (integer n ∷ es) =
    index_text (printed i) n ++ (dot_before es ++ dump_loop printed (suc i) es)

-- `granted` is the allocator's answer for the temporary string. The memory of the result is not
-- checked by the code and is taken to be granted.
unfoldable pub dump : Bool → (ℕ → Bool) → PeTree → Errno × (Option Errno × Option (List ℕ))
unfolding dump_loop
dump false printed t = (error, (some alloc, none))
dump true printed t = (ok, (none, some (dump_loop printed 0 t.head)))

-- what is printed on the standard output; the C library's `printf` prints the index
unfoldable pub dumpout : PeTree → List ℕ
unfolding dump_loop
dumpout t = dump_loop (λ i. true) 0 t.head ++ (10 ∷ [])

-- `eris_petree_iter_t`: `current` is what is left of the chain
pub record Iter : Type 0 where
  pub pos : ℕ
  pub current : List Element

unfoldable pub iter : Option PeTree → Iter
iter none = record { pos = 0; current = [] }
iter (some t) = record { pos = 0; current = t.head }

unfoldable pub reset : Option PeTree → Iter
reset none = record { pos = 0; current = [] }
reset (some t) = record { pos = 0; current = t.head }

abbrev advance : ℕ → List Element → Option Element × Iter
advance p [] = (none, record { pos = p; current = [] })
advance p (e ∷ es) = (some e, record { pos = p + 1; current = es })

unfoldable pub next : Iter → Option Element × Iter
next it = advance it.pos it.current
