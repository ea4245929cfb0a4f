-- ===== src/EString/Strip.antt =====
-- `eris_string_strip`, `eris_string_lstrip` and `eris_string_rstrip`: blanks at the ends of a string.
use erishttp.Common.{
  take-append, get_or-append_left, get_or-append_right, ℕ, zero, suc, ◌+◌, ◌-◌, ◌≤◌, ◌<◌, ◌≡◌, ◌≢◌,
  ◌⊎◌, inl, inr, ◌∙◌, refl, ap, Bool, true, false, ◌||◌, ◌&&◌, none, some, List, [], ◌∷◌, ◌++◌,
  append-nil, length-append, leb, Bool-cases, ◌==◌, if◌then◌else◌, arith, length, get_or, take,
  replicate, All,
}
use erishttp.EString.{EString}

-- C's `isspace` in the "C" locale
abbrev pub is_space : ℕ → Bool
is_space c = c == 32 || (leb 9 c && leb c 13)

abbrev pub skip_space : List ℕ → List ℕ
skip_space [] = []
skip_space (x ∷ xs) = if is_space x then skip_space xs else x ∷ xs

-- what the second loop of `eris_string_lstrip` moves to the front
abbrev pub before_nul : List ℕ → List ℕ
before_nul [] = []
before_nul (x ∷ xs) = if x == 0 then [] else x ∷ before_nul xs

-- The size shrinks by the blanks; what stands behind a NUL byte is lost.
unfoldable pub lstrip : EString → EString
lstrip none = none
lstrip (some xs) =
    let rest = skip_space xs in
    let moved = before_nul rest in some (moved ++ replicate (length rest - length moved) 0)

-- the loop from the last of the first `n` bytes on
abbrev pub rstrip_loop : ℕ → List ℕ → List ℕ
rstrip_loop zero xs = []
rstrip_loop (suc n) xs =
    let rest = rstrip_loop n xs in if is_space (get_or xs n 0) then rest else take (suc n) xs

unfoldable pub rstrip : EString → EString
rstrip none = none
rstrip (some xs) = some (rstrip_loop (length xs) xs)

unfoldable pub strip : EString → EString
unfolding lstrip rstrip
strip es = lstrip (rstrip es)

abbrev pub AreSpaces : List ℕ → Type 0
AreSpaces xs = All (λ x. is_space x ≡ true) xs

rstrip_loop-take :
    (n m : ℕ) (xs : List ℕ)
    → m ≤ n
    → ((i : ℕ) → m ≤ i → i < n → is_space (get_or xs i 0) ≡ true)
    → (m ≡ 0) ⊎ (is_space (get_or xs (m - 1) 0) ≡ false)
    → rstrip_loop n xs ≡ take m xs
rstrip_loop-take zero m xs h blank edge = let p : m ≡ 0 = omega arith in rw p refl
rstrip_loop-take (suc n) m xs h blank edge = elim (Bool-cases (leb m n)) [
  | inl k ↦
      rw (blank n (ground arith) (omega arith))
        (rstrip_loop-take n m xs (ground arith) (λ i l u. blank i l (omega arith)) edge)
  | inr k ↦
      let p : m ≡ suc n = ground arith in
      let q : suc n - 1 ≡ n = omega arith in
      let solid : is_space (get_or xs n 0) ≡ false = ground (arith) in rw (p, solid) refl
]

get_or-AreSpaces :
    (xs ys : List ℕ) (i : ℕ)
    → AreSpaces ys
    → length xs ≤ i
    → i < length xs + length ys
    → is_space (get_or (xs ++ ys) i 0) ≡ true
get_or-AreSpaces [] [] i all l u = absurd (omega arith)
get_or-AreSpaces [] (y ∷ ys) zero (first, all) l u = first
get_or-AreSpaces [] (y ∷ ys) (suc i) (first, all) l u =
    get_or-AreSpaces [] ys i all (omega arith) (omega arith)
get_or-AreSpaces (x ∷ xs) ys zero all l u = absurd (omega arith)
get_or-AreSpaces (x ∷ xs) ys (suc i) all l u =
    get_or-AreSpaces xs ys i all (omega arith) (omega arith)

-- Blanks behind a text that is empty or has another byte at its end are dropped.
rstrip_loop-padded :
    (xs ys : List ℕ)
    → AreSpaces ys
    → (length xs ≡ 0) ⊎ (is_space (get_or xs (length xs - 1) 0) ≡ false)
    → rstrip_loop (length (xs ++ ys)) (xs ++ ys) ≡ xs
rstrip_loop-padded xs ys all edge =
    let n = length-append xs ys in
    rstrip_loop-take (length (xs ++ ys)) (length xs) (xs ++ ys) (omega (arith, n))
      (λ i l u. get_or-AreSpaces xs ys i all l (omega (arith, n)))
      (elim (Bool-cases (length xs == 0)) [
        | inl k ↦ inl (ground arith)
        | inr k ↦
            let solid : is_space (get_or xs (length xs - 1) 0) ≡ false = ground arith in
            inr (rw (get_or-append_left xs ys (length xs - 1) 0 (ground arith)) solid)
      ])
    ∙ take-append xs ys

AreSpaces-append : (xs ys : List ℕ) → AreSpaces xs → AreSpaces ys → AreSpaces (xs ++ ys)
AreSpaces-append [] ys h k = k
AreSpaces-append (x ∷ xs) ys (first, h) k = (first, AreSpaces-append xs ys h k)

rstrip-padded :
    (a core b : List ℕ)
    → AreSpaces a
    → AreSpaces b
    → is_space (get_or core (length core - 1) 0) ≡ false
    → (rstrip (some ((a ++ core) ++ b)) ≡ some (a ++ core))
      ⊎ ((core ≡ []) × (rstrip (some ((a ++ core) ++ b)) ≡ some []))
unfolding rstrip
rstrip-padded a [] b before behind last = inr (
  refl,
  rw (append-nil a)
      (ap some (rstrip_loop-padded [] (a ++ b) (AreSpaces-append a b before behind) (inl refl))),
)
rstrip-padded a (c ∷ cs) b before behind last =
    let n = length-append a (c ∷ cs) in
    let p : length (a ++ (c ∷ cs)) - 1 ≡ length a + (length (c ∷ cs) - 1) = omega (arith, n) in
    inl (
      ap some (
        rstrip_loop-padded (a ++ (c ∷ cs)) b behind
          (inr (rw (p, get_or-append_right a (c ∷ cs) (length (c ∷ cs) - 1)) last))))

skip_space-solid : (xs : List ℕ) → is_space (get_or xs 0 0) ≡ false → skip_space xs ≡ xs
skip_space-solid [] h = refl
skip_space-solid (x ∷ xs) h = rw h refl

skip_space-padded :
    (a xs : List ℕ) → AreSpaces a → is_space (get_or xs 0 0) ≡ false → skip_space (a ++ xs) ≡ xs
skip_space-padded [] xs all h = skip_space-solid xs h
skip_space-padded (x ∷ a) xs (first, all) h = rw first (skip_space-padded a xs all h)

before_nul_self : (xs : List ℕ) → All (λ x. x ≢ 0) xs → before_nul xs ≡ xs
before_nul_self [] all = refl
before_nul_self (x ∷ xs) (first, all) =
    let h : (x == 0) ≡ false = ground arith in rw h (ap (λ t. x ∷ t) (before_nul_self xs all))

lstrip-padded :
    (a core : List ℕ)
    → AreSpaces a
    → All (λ x. x ≢ 0) core
    → is_space (get_or core 0 0) ≡ false
    → lstrip (some (a ++ core)) ≡ some core
unfolding lstrip
lstrip-padded a core all text first =
    let none_left : length core - length core ≡ 0 = omega arith in
    rw (skip_space-padded a core all first, before_nul_self core text, none_left)
      (ap some (append-nil core))

-- `eris_string_strip` of a text without NUL bytes, written as blanks, a core that has no blank at
-- its ends and blanks again, is the core; the core may be empty.
pub strip-padded :
    (a core b : List ℕ)
    → AreSpaces a
    → AreSpaces b
    → All (λ x. x ≢ 0) core
    → is_space (get_or core 0 0) ≡ false
    → is_space (get_or core (length core - 1) 0) ≡ false
    → strip (some ((a ++ core) ++ b)) ≡ some core
unfolding strip
strip-padded a core b before behind text first last =
    elim (rstrip-padded a core b before behind last) [
      | inl h ↦ ap lstrip h ∙ lstrip-padded a core before text first
      | inr (empty, h) ↦ ap lstrip h ∙ rw empty (lstrip-padded [] [] tt tt refl)
    ]
