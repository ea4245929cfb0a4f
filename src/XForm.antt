-- ===== src/XForm.antt =====
-- Form data, src/core/eris.xform.c: `eris_xform_parse`, `eris_xfrom_get` and `eris_xfrom_set`. The list
-- of the elements, which these only append to and walk through, is a sequence.
pub mod Form
pub mod RoundTrip
pub mod Short
pub mod Access
mod Tests
use erishttp.Common.{
  ℕ, zero, suc, Bool, true, false, Option, none, some, List, [], ◌∷◌, ◌++◌, ◌+◌, ◌&&◌,
  if◌then◌else◌, ◌⊎◌, inl, inr, Errno, is_ok, ok, error, leb, length, take,
}
use mathlib.Core.Option.{map as option_map}
use erishttp.EString.{EString, is_equal, set_string}
use erishttp.EString.Split.{Outcome, value, refused, overrun, no_rounds, split_eris}
use erishttp.UrlEncode.{decode_eris, encode}

-- `eris_xform_elem_s`
pub record Elem : Type 0 where
  pub key : EString
  pub value : EString

abbrev pub XForm : Type 0
XForm = List Elem

-- 0, 1 (invalid data) and EERIS_ERROR
pub data Rc : Type 0 where
  success one failure : Rc

-- the allocator's answers for a split: the ranges, the array, the pieces
pub record Answers : Type 0 where
  pub ranges : ℕ → Bool
  pub room : Bool
  pub pieces : ℕ → Bool

-- The allocator's answers for the split of the query, and for the parts by their places: the split
-- of the part, the element, the text of its key and of its value, and the node of the list.
pub record Memory : Type 0 where
  pub query : Answers
  pub parts : ℕ → Answers
  pub elem : ℕ → Bool
  pub key : ℕ → Bool
  pub value : ℕ → Bool
  pub node : ℕ → Bool

abbrev pub split_by : Answers → List ℕ → EString → ℕ → Outcome (Option (List EString))
split_by a spare es c = split_eris a.ranges a.room a.pieces spare es (c ∷ [])

module _ (mem : Memory) (i : ℕ) where
  abbrev pub on_value : EString → Errno × EString → Rc ⊎ Elem
  on_value key (rc, text) =
      if is_ok rc
      then if mem.node i then inr (record { key = key; value = text }) else inl failure
      else inl failure

  abbrev pub on_key : EString → Errno × EString → Rc ⊎ Elem
  on_key value_es (rc, key) =
      if is_ok rc then on_value key (decode_eris (mem.value i) none value_es) else inl failure

  abbrev pub new_elem : EString → EString → Rc ⊎ Elem
  new_elem key_es value_es =
      if mem.elem i then on_key value_es (decode_eris (mem.key i) none key_es) else inl failure

  -- one part or two; a missing second part is NULL
  abbrev pub take_parts : List EString → Rc ⊎ Elem
  take_parts [] = inl one
  take_parts (k ∷ []) = new_elem k none
  take_parts (k ∷ v ∷ []) = new_elem k v
  take_parts (k ∷ v ∷ w ∷ ws) = inl one

  abbrev pub on_parts : Outcome (Option (List EString)) → Outcome (Rc ⊎ Elem)
  on_parts (value none) = value (inl failure)
  on_parts (value (some parts)) = value (take_parts parts)
  on_parts refused = refused
  on_parts overrun = overrun
  on_parts no_rounds = no_rounds

  -- `key=value`; a part is in a block of just its size
  unfoldable pub parse_elem : EString → Outcome (Rc ⊎ Elem)
  unfolding split_eris
  parse_elem es = on_parts (split_by (mem.parts i) [] es b'=')

abbrev pub followed :
    (XForm → Outcome (Rc ⊎ XForm)) → XForm → Outcome (Rc ⊎ Elem) → Outcome (Rc ⊎ XForm)
followed rest xform (value (inl rc)) = value (inl rc)
followed rest xform (value (inr elem)) = rest (xform ++ (elem ∷ []))
followed rest xform refused = refused
followed rest xform overrun = overrun
followed rest xform no_rounds = no_rounds

unfoldable pub parse_loop : Memory → ℕ → List EString → XForm → Outcome (Rc ⊎ XForm)
unfolding parse_elem
parse_loop mem i [] xform = value (inr xform)
parse_loop mem i (es ∷ array) xform =
    followed (parse_loop mem (suc i) array) xform (parse_elem mem i es)

-- after an error nothing is left
abbrev pub finished : Outcome (Rc ⊎ XForm) → Outcome (Rc × XForm)
finished (value (inl rc)) = value (rc, [])
finished (value (inr xform)) = value (success, xform)
finished refused = refused
finished overrun = overrun
finished no_rounds = no_rounds

abbrev pub on_array : Memory → Outcome (Option (List EString)) → Outcome (Rc × XForm)
on_array mem (value none) = value (failure, [])
on_array mem (value (some array)) = finished (parse_loop mem 0 array [])
on_array mem refused = refused
on_array mem overrun = overrun
on_array mem no_rounds = no_rounds

-- `spare` is behind the query in its block; what the form held before is dropped.
unfoldable pub parse : Memory → List ℕ → XForm → EString → Outcome (Rc × XForm)
unfolding parse_loop split_eris
parse mem spare old none = value (success, [])
parse mem spare old (some query_es) = on_array mem (split_by mem.query spare (some query_es) b'&')

-- `eris_xfrom_get`: the value of the first element with the key
unfoldable pub get : XForm → Option (List ℕ) → EString
unfolding is_equal
get xform none = none
get [] (some key) = none
get (elem ∷ xform) (some key) =
    let rest = get xform (some key) in
    if is_equal false elem.key (some key) then elem.value else rest

abbrev pub rc_of : Errno → Rc
rc_of rc = if is_ok rc then success else failure

abbrev pub with_value : Elem → Errno × EString → Rc × Elem
with_value elem (rc, text) = (rc_of rc, record elem { value = text })

-- The walk of `eris_xfrom_set`: the first element with the key gets the value; `none` if there is none.
unfoldable pub update : Bool → List ℕ → List ℕ → XForm → Option (Rc × XForm)
unfolding set_string is_equal
update granted key text [] = none
update granted key text (elem ∷ xform) =
    let rest = option_map (λ (r : Rc × XForm). (r.0, elem ∷ r.1)) (update granted key text xform) in
    let (rc, changed) = with_value elem (set_string granted elem.value text) in
    if is_equal false elem.key (some key) then some (rc, changed ∷ xform) else rest

-- a new element, unless a text or the node is refused
abbrev pub added : Bool → XForm → Errno × EString → Errno × EString → Rc × XForm
added node xform (rc, key) (rc', text) =
    if is_ok rc && (is_ok rc' && node)
    then (success, xform ++ (record { key = key; value = text } ∷ []))
    else (failure, xform)

-- the bytes from a C string on, `behind` being what follows its NUL
abbrev pub bytes_at : List ℕ → List ℕ → ℕ → Option (List ℕ)
bytes_at text behind n =
    if leb n (length text + 1 + length behind) then some (take n (text ++ (0 ∷ behind))) else none

abbrev pub add : Memory → XForm → List ℕ → Option (List ℕ) → Outcome (Rc × XForm)
add mem xform key none = overrun
add mem xform key (some bytes) = value (
    if mem.elem 0
    then added (mem.node 0) xform (encode (mem.key 0) none (some key))
        (encode (mem.value 0) none (some bytes))
    else (failure, xform))

-- In the code the value of a new element is encoded up to the length of the key.
abbrev pub set_found :
    Memory → List ℕ → XForm → List ℕ → List ℕ → Option (Rc × XForm) → Outcome (Rc × XForm)
set_found mem behind xform key text (some r) = value r
set_found mem behind xform key text none = add mem xform key (bytes_at text behind (length key))

-- `eris_xfrom_set` for a value that is not NULL
unfoldable pub set : Memory → List ℕ → XForm → Option (List ℕ) → List ℕ → Outcome (Rc × XForm)
unfolding update encode
set mem behind xform none text = value (failure, xform)
set mem behind xform (some key) text =
    set_found mem behind xform key text (update (mem.value 0) key text xform)
