-- ===== src/EString/Rotation.antt =====
-- `eris_string_rotation`: the two parts of a string swapped in place, by reversing each of them and
-- then the whole.
use erishttp.Common.{
  get_or-drop, get_or-take, get_or-append_left, get_or-append_right, ℕ, zero, suc, ◌+◌, ◌-◌, ◌≤◌,
  ◌<◌, ◌≡◌, inl, inr, refl, sym, ap, ◌∙◌, ◌&&◌, false, none, some, List, ◌++◌, length-append, ltb,
  ◌==◌, if◌then◌else◌, arith, length, get_or, take, drop, Bool-cases, length-drop, length-take,
}
use erishttp.EString.{EString}
use erishttp.EString.Reverse.{
  reverse_loop, length-reverse_loop, reverse_loop-outside, reverse_loop-inside, get_or_ext,
}

-- the loop with `bp` at `b` and `ep` at `e`; no more rounds than bytes
abbrev pub mirror : ℕ → ℕ → List ℕ → List ℕ
mirror b e xs = reverse_loop (length xs) b e xs

-- the three cases of `__pos`, before the whole is reversed
abbrev pub parts_reversed : ℕ → List ℕ → List ℕ
parts_reversed pos xs =
    if pos == 0
    then mirror 1 (length xs - 1) xs
    else if pos == length xs - 1
    then mirror 0 (pos - 1) xs
    else mirror pos (length xs - 1) (mirror 0 (pos - 1) xs)

unfoldable pub rotation : EString → ℕ → EString
unfolding reverse_loop
rotation none pos = none
rotation (some xs) pos =
    if ltb 1 (length xs) && ltb pos (length xs)
    then some (mirror 0 (length xs - 1) (parts_reversed pos xs))
    else some xs

-- the bytes from `p` on, and then those before
abbrev pub turned : ℕ → List ℕ → List ℕ
turned p xs = drop p xs ++ take p xs

abbrev pub rotated : ℕ → List ℕ → List ℕ
rotated pos xs =
    if ltb 1 (length xs) && ltb pos (length xs) then turned (if pos == 0 then 1 else pos) xs else xs

-- the general case
abbrev all_three : ℕ → List ℕ → List ℕ
all_three p xs = mirror 0 (length xs - 1) (mirror p (length xs - 1) (mirror 0 (p - 1) xs))

turned-front :
    (p i : ℕ) (xs : List ℕ) → p + i < length xs → get_or (turned p xs) i 0 ≡ get_or xs (p + i) 0
turned-front p i xs h =
    get_or-append_left (drop p xs) (take p xs) i 0 (omega (arith, length-drop p xs))
    ∙ get_or-drop p i xs 0

turned-back :
    (p i : ℕ) (xs : List ℕ)
    → p ≤ length xs
    → length xs ≤ p + i
    → i < length xs
    → get_or (turned p xs) i 0 ≡ get_or xs (p + i - length xs) 0
turned-back p i xs h k l =
    let q : i ≡ length (drop p xs) + (p + i - length xs) = omega (arith, length-drop p xs) in
    ap (λ j. get_or (turned p xs) j 0) q
    ∙ get_or-append_right (drop p xs) (take p xs) (p + i - length xs) 0
    ∙ get_or-take p (p + i - length xs) xs 0 (omega arith)

length-turned : (p : ℕ) (xs : List ℕ) → p ≤ length xs → length (turned p xs) ≡ length xs
length-turned p xs h =
    omega (arith, length-append (drop p xs) (take p xs), length-drop p xs, length-take p xs)

length-mirror : (b e : ℕ) (xs : List ℕ) → length (mirror b e xs) ≡ length xs
length-mirror b e xs = length-reverse_loop (length xs) b e xs

mirror-inside :
    (b e i : ℕ) (xs : List ℕ)
    → e < length xs
    → b ≤ i
    → i ≤ e
    → get_or (mirror b e xs) i 0 ≡ get_or xs (b + e - i) 0
mirror-inside b e i xs h l u = reverse_loop-inside (length xs) b e i xs (omega arith) h l u

mirror-outside_left : (b e i : ℕ) (xs : List ℕ) → i < b → get_or (mirror b e xs) i 0 ≡ get_or xs i 0
mirror-outside_left b e i xs h = reverse_loop-outside (length xs) b e i xs (inl h)

mirror-outside_right :
    (b e i : ℕ) (xs : List ℕ) → e < i → get_or (mirror b e xs) i 0 ≡ get_or xs i 0
mirror-outside_right b e i xs h = reverse_loop-outside (length xs) b e i xs (inr h)

stopped : (n b : ℕ) (xs : List ℕ) → reverse_loop n b b xs ≡ xs
unfolding reverse_loop
stopped zero b xs = refl
stopped (suc n) b xs = let q : ltb b b ≡ false = ground arith in rw q refl

mirror-one : (b : ℕ) (xs : List ℕ) → mirror b b xs ≡ xs
mirror-one b xs = stopped (length xs) b xs

all_three-turned : (p : ℕ) (xs : List ℕ) → 0 < p → p < length xs → all_three p xs ≡ turned p xs
all_three-turned p xs pos lt =
    get_or_ext (all_three p xs) (turned p xs) (omega (arith, lc, length-turned p xs)) at
  where
    a : List ℕ
    a = mirror 0 (p - 1) xs

    b : List ℕ
    b = mirror p (length xs - 1) a

    la : length a ≡ length xs
    la = length-mirror 0 (p - 1) xs

    lb : length b ≡ length xs
    lb = length-mirror p (length xs - 1) a ∙ la

    lc : length (all_three p xs) ≡ length xs
    lc = length-mirror 0 (length xs - 1) b ∙ lb

    front : (i : ℕ) → p + i < length xs → get_or b (0 + (length xs - 1) - i) 0 ≡ get_or xs (p + i) 0
    front i k =
        let q : p + (length xs - 1) - (0 + (length xs - 1) - i) ≡ p + i = omega (arith, k) in
        mirror-inside p (length xs - 1) (0 + (length xs - 1) - i) a (omega (arith, la))
          (omega (arith, k)) (omega (arith, k))
        ∙ ap (λ j. get_or a j 0) q
        ∙ mirror-outside_right 0 (p - 1) (p + i) xs (omega (arith, pos))

    back :
        (i : ℕ)
        → length xs ≤ p + i
        → i < length xs
        → get_or b (0 + (length xs - 1) - i) 0 ≡ get_or xs (p + i - length xs) 0
    back i k l =
        let q : 0 + (p - 1) - (0 + (length xs - 1) - i) ≡ p + i - length xs =
          omega (arith, k, l, pos) in
        mirror-outside_left p (length xs - 1) (0 + (length xs - 1) - i) a (omega (arith, k, l, pos))
        ∙ mirror-inside 0 (p - 1) (0 + (length xs - 1) - i) xs (omega (arith, lt)) (omega arith)
            (omega (arith, k, l, pos))
        ∙ ap (λ j. get_or xs j 0) q

    at :
        (i : ℕ)
        → i < length (all_three p xs)
        → get_or (all_three p xs) i 0 ≡ get_or (turned p xs) i 0
    at i h =
        let l : i < length xs = omega (arith, h, lc) in
        mirror-inside 0 (length xs - 1) i b (omega (arith, lb, lt)) (omega arith) (omega (arith, l))
        ∙ elim (Bool-cases (ltb (p + i) (length xs))) [
          | inl y ↦
              let k : p + i < length xs = ground (arith, y) in
              front i k ∙ sym (turned-front p i xs k)
          | inr y ↦
              let k : length xs ≤ p + i = ground (arith, y) in
              back i k l ∙ sym (turned-back p i xs (omega (arith, lt)) k l)
        ]

parts_reversed-general :
    (pos : ℕ) (xs : List ℕ)
    → let p = if pos == 0 then 1 else pos in
      parts_reversed pos xs ≡ mirror p (length xs - 1) (mirror 0 (p - 1) xs)
parts_reversed-general pos xs = elim (Bool-cases (pos == 0)) [
  | inl y ↦ rw y (ap (mirror 1 (length xs - 1)) (sym (mirror-one 0 xs)))
  | inr n ↦ rw n (elim (Bool-cases (pos == length xs - 1)) [
    | inr m ↦ rw m refl
    | inl m ↦
        let q : length xs - 1 ≡ pos = ground (arith, m) in
        rw (m, q) (sym (mirror-one pos (mirror 0 (pos - 1) xs)))
  ])
]

-- `eris_string_rotation` of a string: a string of two bytes or more is turned so that it begins at the
-- given place, and at its second byte if that place is 0; a shorter string, or a place behind the
-- string, changes nothing.
pub rotation-rotated : (xs : List ℕ) (pos : ℕ) → rotation (some xs) pos ≡ some (rotated pos xs)
unfolding rotation
rotation-rotated xs pos = elim (Bool-cases (ltb 1 (length xs) && ltb pos (length xs))) [
  | inr n ↦ rw n refl
  | inl y ↦
      let p = if pos == 0 then 1 else pos in
      let begins : 0 < p = ground arith in
      let inside : p < length xs = ground (arith, y) in
      rw y (
        ap some (
          ap (mirror 0 (length xs - 1)) (parts_reversed-general pos xs)
          ∙ all_three-turned p xs begins inside))
]
