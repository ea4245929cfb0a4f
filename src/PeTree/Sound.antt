-- ===== src/PeTree/Sound.antt =====
-- What the path parser makes of any path, when there is memory.
use erishttp.Common.{
  ℕ, ◌≤◌, ◌≡◌, refl, ◌⊎◌, inl, inr, Bool, Bool-cases, true, false, not, ◌||◌, ℤ, negsuc, ◌==◌, List,
  [], ◌∷◌, ◌++◌, Option, none, some, length, length-append, arith, Errno, ok, is_ok, is_ok-ok, ltb,
}
use erishttp.PeTree.{Element, integer, string, PeTree, cleanup}
use erishttp.PeTree.Parser.{
  Parser, PeState, start, key, dot, bracket_l, bracket_r, finish, is_key_char, on_start, on_key,
  on_dot, on_bracket_l, on_bracket_r, dispatch, parse_bytes, parser, is_finish, atoi, last_key,
  ended, begin,
}
use erishttp.PeTree.Proper.{AreKeyChars, IsKey, BeginsWithKey, IsCounted}

-- `AreProper` with any `int` as an index
abbrev pub AreOrdered : List Element → Type 0
AreOrdered [] = Unit
AreOrdered (string k ∷ es) = IsKey k × AreOrdered es
AreOrdered (integer n ∷ es) = BeginsWithKey es × AreOrdered es

abbrev ends_with_index : List Element → Bool
ends_with_index [] = false
ends_with_index (string k ∷ es) = ends_with_index es
ends_with_index (integer n ∷ []) = true
ends_with_index (integer n ∷ e ∷ es) = ends_with_index (e ∷ es)

AreOrdered-string :
    (es : List Element) (k : List ℕ) → AreOrdered es → IsKey k → AreOrdered (es ++ (string k ∷ []))
AreOrdered-string [] k all h = (h, tt)
AreOrdered-string (string j ∷ es) k (first, all) h = (first, AreOrdered-string es k all h)
AreOrdered-string (integer n ∷ []) k all h = (tt, (h, tt))
AreOrdered-string (integer n ∷ string j ∷ es) k (first, all) h =
    (tt, AreOrdered-string (string j ∷ es) k all h)
AreOrdered-string (integer n ∷ integer m ∷ es) k (first, all) h = absurd first

ends_with_index-string :
    (es : List Element) (k : List ℕ) → ends_with_index (es ++ (string k ∷ [])) ≡ false
ends_with_index-string [] k = refl
ends_with_index-string (string j ∷ es) k = ends_with_index-string es k
ends_with_index-string (integer n ∷ []) k = refl
ends_with_index-string (integer n ∷ e ∷ es) k = ends_with_index-string (e ∷ es) k

AreOrdered-integer :
    (es : List Element) (n : ℤ)
    → AreOrdered es
    → ends_with_index es ≡ false
    → AreOrdered (es ++ (integer n ∷ []))
AreOrdered-integer [] n all h = (tt, tt)
AreOrdered-integer (string j ∷ es) n (first, all) h = (first, AreOrdered-integer es n all h)
AreOrdered-integer (integer m ∷ []) n all h = cc
AreOrdered-integer (integer m ∷ string j ∷ es) n (first, all) h =
    (tt, AreOrdered-integer (string j ∷ es) n all h)
AreOrdered-integer (integer m ∷ integer j ∷ es) n (first, all) h = absurd first

AreKeyChars-snoc :
    (k : List ℕ) (c : ℕ) → AreKeyChars k → is_key_char c ≡ true → AreKeyChars (k ++ (c ∷ []))
AreKeyChars-snoc [] c all h = (h, tt)
AreKeyChars-snoc (x ∷ k) c (first, all) h = (first, AreKeyChars-snoc k c all h)

-- the states in which an index can come
abbrev takes_index : PeState → Bool
takes_index start = true
takes_index bracket_l = true
takes_index _ = false

abbrev is_key_state : PeState → Bool
is_key_state key = true
is_key_state _ = false

record IsSound (p : Parser) : Type 0 where
  counted : p.tree.count ≡ length p.tree.head
  levelled : p.tree.level ≡ length p.tree.head
  chars : AreKeyChars p.key
  short : length p.key ≤ 255
  ordered : AreOrdered p.tree.head
  open_end : (not (takes_index p.state) || not (ends_with_index p.tree.head)) ≡ true
  empty : (not (takes_index p.state) || (length p.key == 0)) ≡ true
  filled : (not (is_key_state p.state) || ltb 0 (length p.key)) ≡ true

on_start-IsSound : (p : Parser) (c : ℕ) → p.state ≡ start → IsSound p → IsSound (on_start p c)
unfolding on_start
on_start-IsSound p c e s =
    ground (arith, AreKeyChars-snoc p.key c s.chars, length-append p.key (c ∷ []))

on_dot-IsSound : (p : Parser) (c : ℕ) → p.state ≡ dot → IsSound p → IsSound (on_dot p c)
unfolding on_dot
on_dot-IsSound p c e s =
    ground (arith, AreKeyChars-snoc p.key c s.chars, length-append p.key (c ∷ []))

on_bracket_r-IsSound :
    (p : Parser) (c : ℕ) → p.state ≡ bracket_r → IsSound p → IsSound (on_bracket_r p c)
unfolding on_bracket_r
on_bracket_r-IsSound p c e s = ground arith

-- what the parser returns
abbrev IsResult : Errno × (Option Errno × PeTree) → Type 0
IsResult r = IsCounted r.1.1 × AreOrdered r.1.1.head × ((r.0 ≡ ok) ⊎ (r.1.1.head ≡ []))

ended-IsResult : (p : Parser) → IsCounted p.tree → AreOrdered p.tree.head → IsResult (ended p)
unfolding cleanup
ended-IsResult p c o = elim (Bool-cases (is_ok p.rc)) [
  | inl k ↦ rw k (c, o, inl (is_ok-ok p.rc k))
  | inr k ↦ rw k (record { counted = refl; levelled = refl }, tt, inr refl)
]

module _ (g : ℕ → Bool) (granted : (n : ℕ) → g n ≡ true) where
  on_key-IsSound : (p : Parser) (c : ℕ) → p.state ≡ key → IsSound p → IsSound (on_key g p c)
  unfolding on_key
  on_key-IsSound p c e s = ground (
    arith,
    AreKeyChars-snoc p.key c s.chars,
    length-append p.key (c ∷ []),
    granted p.allocs,
    length-append p.tree.head (string p.key ∷ []),
    AreOrdered-string p.tree.head p.key s.ordered,
    ends_with_index-string p.tree.head p.key,
  )

  on_bracket_l-IsSound :
      (p : Parser) (c : ℕ) → p.state ≡ bracket_l → IsSound p → IsSound (on_bracket_l g p c)
  unfolding on_bracket_l
  on_bracket_l-IsSound p c e s =
      let open_end : ends_with_index p.tree.head ≡ false = ground (arith, s.open_end) in
      ground (
        arith,
        granted p.allocs,
        length-append p.tree.head (integer (negsuc 0) ∷ []),
        length-append p.tree.head (integer (atoi p.index) ∷ []),
        AreOrdered-integer p.tree.head (negsuc 0) s.ordered open_end,
        AreOrdered-integer p.tree.head (atoi p.index) s.ordered open_end,
      )

  step-IsSound :
      (p : Parser) (c : ℕ) (s : PeState) → p.state ≡ s → IsSound p → IsSound (dispatch g s p c)
  step-IsSound p c start e h = on_start-IsSound p c e h
  step-IsSound p c key e h = on_key-IsSound p c e h
  step-IsSound p c dot e h = on_dot-IsSound p c e h
  step-IsSound p c bracket_l e h = on_bracket_l-IsSound p c e h
  step-IsSound p c bracket_r e h = on_bracket_r-IsSound p c e h
  step-IsSound p c finish e h = h

  parse_bytes-IsSound : (p : Parser) (cs : List ℕ) → IsSound p → IsSound (parse_bytes g p cs)
  unfolding parse_bytes
  parse_bytes-IsSound p [] h = h
  parse_bytes-IsSound p (c ∷ cs) h =
      let q = dispatch g p.state p c in
      let step : IsSound q = step-IsSound p c p.state refl h in
      elim (Bool-cases (is_finish q.state)) [
        | inl k ↦ rw k step
        | inr k ↦ rw k (parse_bytes-IsSound q cs step)
      ]

  last_key-AreOrdered :
      (p : Parser) → IsSound p → IsCounted (last_key g p).tree × AreOrdered (last_key g p).tree.head
  last_key-AreOrdered p s = ground (
    arith,
    granted p.allocs,
    length-append p.tree.head (string p.key ∷ []),
    AreOrdered-string p.tree.head p.key s.ordered,
  )

  -- When there is memory, every path leaves a tree whose counts are those of its elements, whose
  -- keys are 1 to 255 letters, digits, `_` and `-`, and which has no index directly behind another;
  -- if an error is returned, the tree is empty.
  pub parser-AreOrdered :
      (t : PeTree) (path : Option (List ℕ))
      → IsCounted (parser g t path).1.1
        × AreOrdered (parser g t path).1.1.head
        × (((parser g t path).0 ≡ ok) ⊎ ((parser g t path).1.1.head ≡ []))
  unfolding parser cleanup
  parser-AreOrdered t none = (record { counted = refl; levelled = refl }, tt, inr refl)
  parser-AreOrdered t (some cs) =
      let begin-IsSound : IsSound (begin t) = record {
        counted = refl;
        levelled = refl;
        chars = tt;
        short = omega arith;
        ordered = tt;
        open_end = refl;
        empty = refl;
        filled = refl;
      } in
      let p = parse_bytes g (begin t) cs in
      let (c, o) = last_key-AreOrdered p (parse_bytes-IsSound (begin t) cs begin-IsSound) in
      ended-IsResult (last_key g p) c o
