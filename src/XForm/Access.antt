-- ===== src/XForm/Access.antt =====
-- Reading and writing the value of a key.
use erishttp.Common.{ℕ, ◌≡◌, ◌≢◌, Bool, true, false, Option, some, List, [], ◌∷◌, if◌then◌else◌}
use erishttp.EString.{text, is_equal}
use erishttp.XForm.{XForm, Rc, success, get}

-- an element has the key
abbrev pub has : List ℕ → XForm → Bool
has key [] = false
has key (elem ∷ xform) = if is_equal false elem.key (some key) then true else has key xform

-- the form after an update
record Updated (key s : List ℕ) (xform : XForm) (r : Option (Rc × XForm)) : Type 0 where
  pub after : XForm
  pub run : r ≡ some (success, after)
  pub got : text (get after (some key)) ≡ s
  pub others : (other : List ℕ) → other ≢ key → get after (some other) ≡ get xform (some other)
