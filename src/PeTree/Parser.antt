-- ===== src/PeTree/Parser.antt =====
-- `eris_petree_parser`.
use erishttp.Common.{
  ℕ, suc, ◌+◌, ◌-◌, ◌*◌, ◌^◌, Bool, true, false, ◌&&◌, ◌||◌, Option, none, some, List, [], ◌∷◌,
  ◌++◌, ℤ, pos, negsuc, to_int, ltb, ◌==◌, if◌then◌else◌, length, min, Errno, is_ok, ok, error,
  alloc, bad_data,
}
use erishttp.EString.Decimal.{is_decimal}
use erishttp.UrlEncode.{is_alnum}
use erishttp.PeTree.{Element, integer, string, PeTree, push, cleanup}

-- the states ERIS_PESTATE_*
pub data PeState : Type 0 where
  start key dot bracket_l bracket_r finish : PeState

-- The locals of the function, the return code, what was written to `__errno`, and the tree; `key` and
-- `index` are the bytes up to `key_size` and `index_size`. `allocs` counts the allocations.
pub record Parser : Type 0 where
  pub rc : Errno
  pub errno : Option Errno
  pub state : PeState
  pub back_flag : Bool
  pub index_star_flag : Bool
  pub key : List ℕ
  pub index : List ℕ
  pub tree : PeTree
  pub allocs : ℕ

abbrev pub fail : Errno → Parser → Parser
fail e p = record p { rc = error; errno = some e }

abbrev pub abort : Errno → Parser → Parser
abort e p = record p { rc = error; errno = some e; state = finish }

abbrev pub goto : PeState → Parser → Parser
goto s p = record p { state = s }

abbrev pub is_key_char : ℕ → Bool
is_key_char c = c == b'_' || (c == b'-' || is_alnum c)

abbrev pub is_blank : ℕ → Bool
is_blank c = c == b' ' || c == 9

-- C's `atoi`: a sign and the digits behind it, as `strtol` reads them, which stops at the limits of
-- a `long`, cut to an `int`.
abbrev pub digits_value : ℕ → List ℕ → ℕ
digits_value v [] = v
digits_value v (c ∷ cs) =
    let rest = digits_value (v * 10 + (c - b'0')) cs in if is_decimal c then rest else v

abbrev pub positive_int : ℕ → ℤ
positive_int v = to_int (min v (2 ^ 63 - 1))

abbrev pub negative_int : ℕ → ℤ
negative_int v = to_int (2 ^ 64 - min v (2 ^ 63))

unfoldable pub atoi : List ℕ → ℤ
atoi [] = pos 0
atoi (c ∷ cs) =
    if c == b'-'
    then negative_int (digits_value 0 cs)
    else if c == b'+'
    then positive_int (digits_value 0 cs)
    else positive_int (digits_value 0 (c ∷ cs))

-- The key holds 255 bytes; what is longer is cut.
abbrev pub push_key : ℕ → Parser → Parser
push_key c p = if ltb (length p.key) 255 then record p { key = p.key ++ (c ∷ []) } else p

abbrev pub push_index : ℕ → Parser → Parser
push_index c p = if ltb (length p.index) 31 then record p { index = p.index ++ (c ∷ []) } else p

unfoldable pub on_start : Parser → ℕ → Parser
on_start p c =
    if c == b'.'
    then goto dot p
    else if c == b'['
    then goto bracket_l p
    else if c == b']'
    then fail bad_data p
    else if is_key_char c
    then record p { key = p.key ++ (c ∷ []); state = key }
    else if is_blank c
    then p
    else abort bad_data p

unfoldable pub on_dot : Parser → ℕ → Parser
on_dot p c =
    if c == b'.'
    then goto dot p
    else if is_key_char c
    then goto key (push_key c p)
    else if is_blank c
    then p
    else abort bad_data p

unfoldable pub on_bracket_r : Parser → ℕ → Parser
on_bracket_r p c = if is_blank c then p else if c == b'.' then goto dot p else abort bad_data p

abbrev pub is_finish : PeState → Bool
is_finish finish = true
is_finish _ = false

abbrev pub ended : Parser → Errno × (Option Errno × PeTree)
ended p = (p.rc, (p.errno, if is_ok p.rc then p.tree else cleanup p.tree))

abbrev pub begin : PeTree → Parser
begin t = record {
  rc = ok;
  errno = none;
  state = start;
  back_flag = false;
  index_star_flag = false;
  key = [];
  index = [];
  tree = cleanup t;
  allocs = 0;
}

module _ (granted : ℕ → Bool) where
  -- The element goes to the end of the chain, or `refused` is done.
  abbrev pub new_element : Element → (Parser → Parser) → Parser → Parser
  new_element e refused p =
      let q = record p { allocs = suc p.allocs } in
      if granted p.allocs then record q { tree = push e p.tree } else refused q

  abbrev pub take_key : (Parser → Parser) → Parser → Parser
  take_key refused p = record (new_element (string p.key) refused p) { back_flag = false; key = [] }

  unfoldable pub on_key : Parser → ℕ → Parser
  on_key p c =
      if c == b'.'
      then goto dot (if ltb 0 (length p.key) then take_key (abort alloc) p else p)
      else if c == b'['
      then goto bracket_l (if ltb 0 (length p.key) then take_key (λ q. q) p else abort alloc p)
      else if c == b']'
      then abort bad_data p
      else if is_key_char c
      then (if p.back_flag then abort bad_data p else push_key c p)
      else if is_blank c
      then (if ltb 0 (length p.key) then record p { back_flag = true } else p)
      else abort bad_data p

  -- The left bracket is closed; `*` stands for the index -1.
  abbrev pub close_bracket : Parser → Parser
  close_bracket p =
      if p.index_star_flag
      then record (if length p.index == 0
          then new_element (integer (negsuc 0)) (abort alloc) p
          else abort bad_data p) { index_star_flag = false }
      else record (new_element (integer (atoi p.index)) (abort alloc) p) { index = [] }

  unfoldable pub on_bracket_l : Parser → ℕ → Parser
  unfolding atoi
  on_bracket_l p c =
      if is_decimal c
      then push_index c p
      else if c == b']'
      then record (close_bracket p) { back_flag = false; state = bracket_r }
      else if c == b'*'
      then record p { index_star_flag = true }
      else if is_blank c
      then (if ltb 0 (length p.index) then record p { back_flag = true } else p)
      else if length p.index == 0 && (c == b'-' || c == b'+')
      then record p { index = p.index ++ (c ∷ []) }
      else abort bad_data p

  abbrev pub dispatch : PeState → Parser → ℕ → Parser
  dispatch start = on_start
  dispatch key = on_key
  dispatch dot = on_dot
  dispatch bracket_l = on_bracket_l
  dispatch bracket_r = on_bracket_r
  dispatch finish = λ p c. p

  -- the loop over the path
  unfoldable pub parse_bytes : Parser → List ℕ → Parser
  parse_bytes p [] = p
  parse_bytes p (c ∷ cs) =
      let q = dispatch p.state p c in
      let rest = parse_bytes q cs in if is_finish q.state then q else rest

  -- The key that the end of the path closes. A refusal of its memory is not reported.
  abbrev pub last_key : Parser → Parser
  last_key p =
      if is_ok p.rc && ltb 0 (length p.key)
      then record (new_element (string p.key) (λ q. q) p) { key = [] }
      else p

  -- `none` is a path that is NULL. The tree is not NULL.
  unfoldable pub parser : PeTree → Option (List ℕ) → Errno × (Option Errno × PeTree)
  unfolding parse_bytes cleanup
  parser t none = (error, (some bad_data, cleanup t))
  parser t (some s) = ended (last_key (parse_bytes (begin t) s))
