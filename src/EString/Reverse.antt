-- ===== src/EString/Reverse.antt =====
-- `eris_string_reverse`: the bytes swapped in place, from both ends to the middle.
use erishttp.Common.{
  get_or-append_left, get_or-append_right, ℕ, zero, suc, ◌+◌, ◌-◌, ◌≤◌, ◌<◌, ◌≡◌, ◌⊎◌, inl, inr,
  refl, true, none, some, List, [], ◌∷◌, ◌++◌, length-append, sym, ltb, if◌then◌else◌, arith,
  length, get_or, set, Bool-cases, ◌∙◌, ap, length-set, get_or-set_self, get_or-set_ne,
}
use mathlib.Core.Option.{map as option_map}
use erishttp.EString.{EString}

-- `bp` and `ep` are at `b` and `e`.
abbrev pub swapped : ℕ → ℕ → List ℕ → List ℕ
swapped b e xs = set (set xs b (get_or xs e 0)) e (get_or xs b 0)

-- the loop while `bp < ep`; the fuel bounds its rounds
unfoldable pub reverse_loop : ℕ → ℕ → ℕ → List ℕ → List ℕ
reverse_loop zero b e xs = xs
reverse_loop (suc n) b e xs =
    let rest = reverse_loop n (b + 1) (e - 1) (swapped b e xs) in if ltb b e then rest else xs

-- A round takes two bytes, so that there are no more rounds than bytes.
unfoldable pub reverse : EString → EString
unfolding reverse_loop
reverse none = none
reverse (some xs) =
    if ltb 1 (length xs) then some (reverse_loop (length xs) 0 (length xs - 1) xs) else some xs

length-swapped : (b e : ℕ) (xs : List ℕ) → length (swapped b e xs) ≡ length xs
length-swapped b e xs =
    rw (length-set (set xs b (get_or xs e 0)) e (get_or xs b 0)) (length-set xs b (get_or xs e 0))

swapped-other :
    (b e i : ℕ) (xs : List ℕ)
    → (i < b) ⊎ (b < i)
    → (i < e) ⊎ (e < i)
    → get_or (swapped b e xs) i 0 ≡ get_or xs i 0
swapped-other b e i xs nb ne =
    rw (get_or-set_ne (set xs b (get_or xs e 0)) e i (get_or xs b 0) 0 (λ q. ground arith))
      (get_or-set_ne xs b i (get_or xs e 0) 0 (λ q. ground arith))

swapped-end : (b e : ℕ) (xs : List ℕ) → e < length xs → get_or (swapped b e xs) e 0 ≡ get_or xs b 0
swapped-end b e xs h =
    get_or-set_self (set xs b (get_or xs e 0)) e (get_or xs b 0) 0
      (omega (arith, length-set xs b (get_or xs e 0)))

swapped-begin :
    (b e : ℕ) (xs : List ℕ) → b < e → e < length xs → get_or (swapped b e xs) b 0 ≡ get_or xs e 0
swapped-begin b e xs h k =
    rw (get_or-set_ne (set xs b (get_or xs e 0)) e b (get_or xs b 0) 0 (λ q. omega arith))
      (get_or-set_self xs b (get_or xs e 0) 0 (omega arith))

pub length-reverse_loop : (n b e : ℕ) (xs : List ℕ) → length (reverse_loop n b e xs) ≡ length xs
unfolding reverse_loop
length-reverse_loop zero b e xs = refl
length-reverse_loop (suc n) b e xs =
    ground (arith, length-reverse_loop n (b + 1) (e - 1) (swapped b e xs), length-swapped b e xs)

-- Outside of the two pointers nothing changes.
pub reverse_loop-outside :
    (n b e i : ℕ) (xs : List ℕ)
    → (i < b) ⊎ (e < i)
    → get_or (reverse_loop n b e xs) i 0 ≡ get_or xs i 0
unfolding reverse_loop
reverse_loop-outside zero b e i xs h = refl
reverse_loop-outside (suc n) b e i xs h =
    let ih = reverse_loop-outside n (b + 1) (e - 1) i (swapped b e xs) in
    let other = swapped-other b e i xs in ground (arith, ih, other)

-- A round, where the loop over the rest mirrors what it has.
round-inside :
    (n b e i : ℕ) (xs : List ℕ)
    → e < length xs
    → b < e
    → b ≤ i
    → i ≤ e
    → (b < i
        → i < e
        → get_or (reverse_loop n (b + 1) (e - 1) (swapped b e xs)) i 0
          ≡ get_or (swapped b e xs) (b + e - i) 0)
    → get_or (reverse_loop n (b + 1) (e - 1) (swapped b e xs)) i 0 ≡ get_or xs (b + e - i) 0
round-inside n b e i xs h lt l u rest =
    let o = reverse_loop-outside n (b + 1) (e - 1) i (swapped b e xs) in
    elim (Bool-cases (ltb b i)) [
      | inl k ↦ elim (Bool-cases (ltb i e)) [
        | inl m ↦
            rest (ground arith) (ground arith)
            ∙ swapped-other b e (b + e - i) xs (inr (ground arith)) (inl (ground arith))
        | inr m ↦
            let q : i ≡ e = ground arith in
            let p : b + e - e ≡ b = omega arith in
            rw (o (inr (ground arith)), q, p) (swapped-end b e xs h)
      ]
      | inr k ↦
          let q : i ≡ b = ground arith in
          let p : b + e - b ≡ e = omega arith in
          rw (o (inl (ground arith)), q, p) (swapped-begin b e xs lt h)
    ]

-- Between the pointers every byte goes to the mirrored place.
pub reverse_loop-inside :
    (n b e i : ℕ) (xs : List ℕ)
    → e < n + b
    → e < length xs
    → b ≤ i
    → i ≤ e
    → get_or (reverse_loop n b e xs) i 0 ≡ get_or xs (b + e - i) 0
unfolding reverse_loop
reverse_loop-inside zero b e i xs f h l u = absurd (omega arith)
reverse_loop-inside (suc n) b e i xs f h l u =
    let whole : b < e
        → get_or (reverse_loop n (b + 1) (e - 1) (swapped b e xs)) i 0 ≡ get_or xs (b + e - i) 0 =
      λ lt. round-inside n b e i xs h lt l u (λ k m.
        let p : b + e - i ≡ b + 1 + (e - 1) - i = omega arith in
        rw p (
          reverse_loop-inside n (b + 1) (e - 1) i (swapped b e xs) (omega arith)
            (omega (arith, length-swapped b e xs)) (omega arith) (omega arith))) in
    elim (Bool-cases (ltb b e)) [
      | inl k ↦ rw k (whole (ground arith))
      | inr k ↦ let p : b + e - i ≡ i = ground arith in rw (k, p) refl
    ]

-- the bytes in the opposite order
abbrev pub reversed : List ℕ → List ℕ
reversed [] = []
reversed (x ∷ xs) = reversed xs ++ (x ∷ [])

pub length-reversed : (xs : List ℕ) → length (reversed xs) ≡ length xs
length-reversed [] = refl
length-reversed (x ∷ xs) = omega (arith, length-append (reversed xs) (x ∷ []), length-reversed xs)

get_or-reversed :
    (xs : List ℕ) (i : ℕ)
    → i < length xs
    → get_or (reversed xs) (length xs - 1 - i) 0 ≡ get_or xs i 0
get_or-reversed [] i h = absurd (omega arith)
get_or-reversed (x ∷ xs) zero h =
    let p : suc (length xs) - 1 - 0 ≡ length (reversed xs) + 0 =
      omega (arith, length-reversed xs) in
    rw p (get_or-append_right (reversed xs) (x ∷ []) 0 0)
get_or-reversed (x ∷ xs) (suc i) h =
    let p : suc (length xs) - 1 - suc i ≡ length xs - 1 - i = omega arith in
    rw
      (
        p,
        get_or-append_left (reversed xs) (x ∷ []) (length xs - 1 - i) 0
            (omega (arith, length-reversed xs)),
      )
      (get_or-reversed xs i (omega arith))

-- Lists of one length with the same bytes are the same.
pub get_or_ext :
    (xs ys : List ℕ)
    → length xs ≡ length ys
    → ((i : ℕ) → i < length xs → get_or xs i 0 ≡ get_or ys i 0)
    → xs ≡ ys
get_or_ext [] [] h e = refl
get_or_ext [] (y ∷ ys) h e = absurd (omega arith)
get_or_ext (x ∷ xs) [] h e = absurd (omega arith)
get_or_ext (x ∷ xs) (y ∷ ys) h e =
    let same = get_or_ext xs ys (omega arith) (λ i k. e (suc i) (omega arith)) in
    rw (e 0 (omega arith), same) refl

reverse_loop-reversed : (xs : List ℕ) → reverse_loop (length xs) 0 (length xs - 1) xs ≡ reversed xs
reverse_loop-reversed xs =
    let n = length xs in
    let same_size = length-reverse_loop n 0 (n - 1) xs in
    get_or_ext (reverse_loop n 0 (n - 1) xs) (reversed xs) (omega (arith, length-reversed xs))
      (λ i h.
        let p : 0 + (n - 1) - i ≡ n - 1 - i = omega arith in
        let q : n - 1 - (n - 1 - i) ≡ i = omega arith in
        reverse_loop-inside n 0 (n - 1) i xs (omega arith) (omega arith) (omega arith) (omega arith)
        ∙ ap (λ j. get_or xs j 0) p
        ∙ sym (get_or-reversed xs (n - 1 - i) (omega arith))
        ∙ ap (λ j. get_or (reversed xs) j 0) q)

-- `eris_string_reverse` puts the bytes of a string in the opposite order, and leaves NULL alone.
pub reverse-reversed : (es : EString) → reverse es ≡ option_map reversed es
unfolding reverse
reverse-reversed none = refl
reverse-reversed (some []) = refl
reverse-reversed (some (x ∷ [])) = refl
reverse-reversed (some (x ∷ y ∷ xs)) =
    let k : ltb 1 (length (x ∷ y ∷ xs)) ≡ true = ground arith in
    rw k (ap some (reverse_loop-reversed (x ∷ y ∷ xs)))
