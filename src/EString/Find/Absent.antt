-- ===== src/EString/Find/Absent.antt =====
-- A search for what is not there.
use erishttp.Common.{
  ℕ, suc, ◌+◌, ◌-◌, ◌<◌, ◌≡◌, ◌≢◌, refl, sym, ap, ◌∙◌, true, none, some, List, [], ◌∷◌, ◌++◌, All,
  arith, append_assoc, length, get_elem?, drop, ==_self, ==_ne, Bool-cases, inl, inr, length-append,
  ltb,
}
use erishttp.EString.Find.{npos, overrun, compare_loop, skip_loop, find_loop, find_at, find, memory}
use erishttp.EString.Find.Places.{drop-append, drop-drop, get_elem?-drop, All-drop}

skip_to_end :
    (c s : ℕ) (m spare : List ℕ)
    → All (λ x. x ≢ 0) m
    → All (λ x. x ≢ c) m
    → skip_loop (m ++ (0 ∷ spare)) s c ≡ some none
unfolding skip_loop
skip_to_end c s [] spare nz ne = refl
skip_to_end c s (x ∷ m) spare (nx, nz) (cx, ne) =
    rw (==_ne x 0 nx, ==_ne x c cx) (skip_to_end c (suc s) m spare nz ne)

head_byte : (s x : ℕ) (mem t : List ℕ) → drop s mem ≡ x ∷ t → get_elem? mem s ≡ some x
head_byte s x mem t e =
    ap (get_elem? mem) (let q : s ≡ s + 0 = omega arith in q)
    ∙ sym (get_elem?-drop s 0 mem)
    ∙ ap (λ t'. get_elem? t' 0) e

next_tail : (s x : ℕ) (mem t : List ℕ) → drop s mem ≡ x ∷ t → drop (suc s) mem ≡ t
next_tail s x mem t e =
    ap (λ a. drop a mem) (let q : suc s ≡ s + 1 = omega arith in q)
    ∙ sym (drop-drop 1 s mem)
    ∙ ap (drop 1) e

all_skipped :
    (c n s : ℕ) (mem m spare : List ℕ)
    → drop s mem ≡ m ++ (0 ∷ spare)
    → All (λ x. x ≢ 0) m
    → All (λ x. x ≢ c) m
    → find_loop (suc n) mem (c ∷ []) s ≡ npos
unfolding find_loop compare_loop
all_skipped c n s mem [] spare e nz ne = rw (head_byte s 0 mem spare e) refl
all_skipped c n s mem (x ∷ []) spare e (nx, nz) (cx, ne) =
    let e1 = next_tail s x mem (0 ∷ spare) e in
    rw
      (
        head_byte s x mem (0 ∷ spare) e,
        ==_ne x 0 nx,
        e,
        ==_ne x c cx,
        head_byte (suc s) 0 mem spare e1,
      )
      refl
all_skipped c n s mem (x ∷ z ∷ m) spare e (nx, nz) (cx, ne) =
    let e1 = next_tail s x mem (z ∷ (m ++ (0 ∷ spare))) e in
    rw
      (
        head_byte s x mem (z ∷ (m ++ (0 ∷ spare))) e,
        ==_ne x 0 nx,
        e,
        ==_ne x c cx,
        head_byte (suc s) z mem (m ++ (0 ∷ spare)) e1,
        ==_ne z 0 nz.0,
        e1,
        skip_to_end c (suc s) (z ∷ m) spare nz ne,
      )
      refl

-- `eris_string_find_at` in a string without NUL bytes, whatever is in the spare room of its block: a
-- byte that does not stand from the given index on is not found, and no byte behind the block is
-- read.
pub find_at-absent :
    (spare xs : List ℕ) (at c : ℕ)
    → All (λ x. x ≢ 0) xs
    → All (λ x. x ≢ c) (drop at xs)
    → find_at spare (some xs) at (some (c ∷ [])) ≡ npos
unfolding find_at
find_at-absent spare xs at c h ne = elim (Bool-cases (ltb at (length xs))) [
  | inr out ↦ rw out refl
  | inl inside ↦
      let lt : at < length xs = ground (arith, inside) in
      let rounds : length (memory xs spare) ≡ suc (length xs + length spare) =
        omega (arith, length-append xs (0 ∷ spare)) in
      rw (inside, rounds)
        (all_skipped c (length xs + length spare) at (memory xs spare) (drop at xs) spare
          (drop-append at xs (0 ∷ spare) (omega arith)) (All-drop (λ x. x ≢ 0) at xs h) ne)
]

ends_inside :
    (n y z : ℕ) (ys mem : List ℕ) (s : ℕ)
    → drop s mem ≡ y ∷ 0 ∷ []
    → y ≢ 0
    → z ≢ 0
    → find_loop (suc n) mem (y ∷ z ∷ ys) s ≡ overrun
unfolding find_loop compare_loop
ends_inside n y z ys mem s e ny nz =
    let e1 = next_tail s y mem (0 ∷ []) e in
    let e2 = next_tail (suc s) 0 mem [] e1 in
    let behind : get_elem? mem (suc (suc s)) ≡ none =
      ap (get_elem? mem) (let q : suc (suc s) ≡ suc (suc s) + 0 = omega arith in q)
      ∙ sym (get_elem?-drop (suc (suc s)) 0 mem)
      ∙ ap (λ t'. get_elem? t' 0) e2 in
    rw
      (
        head_byte s y mem (0 ∷ []) e,
        ==_ne y 0 ny,
        e,
        ==_self y,
        ==_ne 0 z (λ q. nz (sym q)),
        behind,
      )
      refl

skip_to_last :
    (y s : ℕ) (m t : List ℕ)
    → y ≢ 0
    → All (λ x. x ≢ 0) m
    → All (λ x. x ≢ y) m
    → skip_loop (m ++ (y ∷ t)) s y ≡ some (some (s + length m))
unfolding skip_loop
skip_to_last y s [] t ny nz ne =
    let q : s + 0 ≡ s = omega arith in rw (==_ne y 0 ny, ==_self y, q) refl
skip_to_last y s (x ∷ m) t ny (nx, nz) (cx, ne) =
    let q : suc s + length m ≡ s + suc (length m) = omega arith in
    rw (==_ne x 0 nx, ==_ne x y cx)
      (skip_to_last y (suc s) m t ny nz ne ∙ ap (λ a. some (some a)) q)

drop-front : (m t : List ℕ) → drop (length m) (m ++ t) ≡ t
drop-front [] t = refl
drop-front (x ∷ m) t = drop-front m t

first_round :
    (n x y z : ℕ) (p ys : List ℕ)
    → y ≢ 0
    → All (λ a. a ≢ 0) (x ∷ p)
    → All (λ a. a ≢ y) (x ∷ p)
    → find_loop (suc n) (x ∷ (p ++ (y ∷ 0 ∷ []))) (y ∷ z ∷ ys) 0
      ≡ find_loop n (x ∷ (p ++ (y ∷ 0 ∷ []))) (y ∷ z ∷ ys) (suc (length p))
unfolding find_loop compare_loop
first_round n x y z [] ys ny (hx, h) (nx, ne) =
    let gone : suc (suc (length ys)) - suc (suc (length ys)) ≡ 0 = omega arith in
    rw (==_ne x 0 hx, ==_ne x y nx, ==_ne y 0 ny, ==_self y, gone) refl
first_round n x y z (x' ∷ p) ys ny (hx, h) (nx, ne) =
    let gone : suc (suc (length ys)) - suc (suc (length ys)) ≡ 0 = omega arith in
    let back : 2 + length p - 0 ≡ suc (suc (length p)) = omega arith in
    rw
      (
        ==_ne x 0 hx,
        ==_ne x y nx,
        ==_ne x' 0 h.0,
        ==_ne x' y ne.0,
        skip_to_last y 2 p (0 ∷ []) ny h.1 ne.1,
        gone,
        back,
      )
      refl

reaches_last :
    (n x y z : ℕ) (p ys : List ℕ)
    → y ≢ 0
    → z ≢ 0
    → All (λ a. a ≢ 0) (x ∷ p)
    → All (λ a. a ≢ y) (x ∷ p)
    → find_loop (suc (suc n)) (x ∷ (p ++ (y ∷ 0 ∷ []))) (y ∷ z ∷ ys) 0 ≡ overrun
reaches_last n x y z p ys ny nz h ne =
    first_round (suc n) x y z p ys ny h ne
    ∙ ends_inside n y z ys (x ∷ (p ++ (y ∷ 0 ∷ []))) (suc (length p)) (drop-front p (y ∷ 0 ∷ [])) ny
        nz

-- `eris_string_find` when a block is full and its text ends in the first byte of the substring, which
-- has more bytes and whose first byte stands nowhere before: the search reads behind the block.
pub find-overrun :
    (p : List ℕ) (y z : ℕ) (ys : List ℕ)
    → y ≢ 0
    → z ≢ 0
    → All (λ x. x ≢ 0) p
    → All (λ x. x ≢ y) p
    → find [] (some (p ++ (y ∷ []))) (some (y ∷ z ∷ ys)) ≡ overrun
unfolding find find_at
find-overrun [] y z ys ny nz h ne = ends_inside 1 y z ys (y ∷ 0 ∷ []) 0 refl ny nz
find-overrun (x ∷ p) y z ys ny nz h ne =
    let inside : ltb 0 (suc (length (p ++ (y ∷ [])))) ≡ true = ground arith in
    let rounds : length (p ++ (y ∷ 0 ∷ [])) ≡ suc (suc (length p)) =
      omega (arith, length-append p (y ∷ 0 ∷ [])) in
    rw (inside, append_assoc p (y ∷ []) (0 ∷ []), rounds)
      (reaches_last (suc (length p)) x y z p ys ny nz h ne)
