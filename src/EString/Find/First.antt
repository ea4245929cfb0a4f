-- ===== src/EString/Find/First.antt =====
-- A search finds the first place of a substring.
use erishttp.Common.{
  ℕ, zero, suc, ◌+◌, ◌-◌, ◌≤◌, ◌<◌, ◌≡◌, ◌≢◌, refl, sym, ap, ◌∙◌, true, false, some, List, [], ◌∷◌,
  ◌++◌, All, arith, length, get_elem?, drop, ◌==◌, ==_iff, ==_ne, Bool-cases, inl, inr, length-drop,
  length-append, ltb,
}
use erishttp.EString.Find.{index, compare_loop, skip_loop, find_loop, find_at, memory}
use erishttp.EString.Find.Places.{
  is_prefix, IsFirst, drop-drop, drop-append, get_elem?-drop, get_elem?-some, length-is_prefix,
  get_elem?-inside, get_elem?_lt, All-drop, IsFirst-drop, IsFirst-inside, head_prefix, tail_prefix,
}

matched :
    (m t : List ℕ) (s : ℕ) (d : List ℕ)
    → is_prefix d m ≡ true
    → compare_loop (m ++ t) s d ≡ some (s + length d, [])
unfolding compare_loop
matched m t s [] h = let p : s + 0 ≡ s = omega arith in rw p refl
matched [] t s (y ∷ d) h = absurd (ground arith)
matched (x ∷ m) t s (y ∷ d) h =
    let p : (x == y) ≡ true = ground (arith, h) in
    let q : suc s + length d ≡ s + suc (length d) = omega arith in
    let r : is_prefix d m ≡ true = ground (arith, h) in
    rw p (matched m t (suc s) d r ∙ ap (λ n. some (n, [])) q)

record Mismatch (d m t : List ℕ) (s i : ℕ) : Type 0 where
  pub j : ℕ
  pub y : ℕ
  pub rest : List ℕ
  pub run : compare_loop (m ++ t) s d ≡ some (suc (s + j), y ∷ rest)
  pub parts : length d ≡ j + suc (length rest)
  pub inside : j < length m
  pub later : get_elem? m (i + j) ≡ some y

-- Where a text is not a prefix but stands later, the loop stops at a byte inside of the string.
mismatch :
    (d m t : List ℕ) (s i : ℕ)
    → is_prefix d m ≡ false
    → 0 < i
    → is_prefix d (drop i m) ≡ true
    → Mismatch d m t s i
unfolding compare_loop
mismatch [] m t s i stop pos h = absurd (ground arith)
mismatch (y ∷ d) [] t s zero stop pos h = absurd (omega arith)
mismatch (y ∷ d) [] t s (suc i) stop pos h = absurd (ground arith)
mismatch (y ∷ d) (x ∷ m) t s i stop pos h = elim (Bool-cases (x == y)) [
  | inl e ↦
      let r = mismatch d m t (suc s) i (ground (arith, stop, e)) pos (tail_prefix y x d m i h) in
      record {
        j = suc r.j;
        y = r.y;
        rest = r.rest;
        run =
            let p : suc s + r.j ≡ s + suc r.j = omega arith in
            rw e (r.run ∙ ap (λ n. some (suc n, r.y ∷ r.rest)) p);
        parts = omega (arith, r.parts);
        inside = omega (arith, r.inside);
        later = let p : i + suc r.j ≡ suc (i + r.j) = omega arith in rw p r.later;
      }
  | inr n ↦ record {
    j = 0;
    y = y;
    rest = d;
    run = let p : s + 0 ≡ s = omega arith in rw (n, p) refl;
    parts = omega arith;
    inside = omega arith;
    later = sym (get_elem?-drop i 0 (x ∷ m)) ∙ head_prefix y d (drop i (x ∷ m)) h;
  }
]

found_next :
    (m t : List ℕ) (s y e : ℕ)
    → All (λ x. x ≢ 0) m
    → get_elem? m e ≡ some y
    → (k : ℕ) × (k ≤ e) × (skip_loop (m ++ t) s y ≡ some (some (s + k)))
unfolding skip_loop
found_next [] t s y e h at_e = absurd (ground (arith, at_e))
found_next (x ∷ m) t s y zero (nz, h) at_e =
    let p : (x == y) ≡ true = (==_iff x y).1 (ground (arith, at_e)) in
    let q : s + 0 ≡ s = omega arith in (0, omega arith, rw (==_ne x 0 nz, p, q) refl)
found_next (x ∷ m) t s y (suc e) (nz, h) at_e =
    let (k, le, run) = found_next m t (suc s) y e h at_e in
    let p : suc s + k ≡ s + suc k = omega arith in
    elim (Bool-cases (x == y)) [
      | inl same ↦
          let q : s + 0 ≡ s = omega arith in (0, omega arith, rw (==_ne x 0 nz, same, q) refl)
      | inr other ↦ (suc k, omega arith, rw (==_ne x 0 nz, other) (run ∙ ap (λ n. some (some n)) p))
    ]

module _ (mem : List ℕ) (spare : List ℕ) (y : ℕ) (ys : List ℕ) where
  -- what the memory from `s` on holds
  abbrev Holds : ℕ → List ℕ → Type 0
  Holds s m = (drop s mem ≡ m ++ (0 ∷ spare)) × All (λ x. x ≢ 0) m

  byte_at :
      (s j : ℕ) (m : List ℕ) → Holds s m → get_elem? mem (s + j) ≡ get_elem? (m ++ (0 ∷ spare)) j
  byte_at s j m h = sym (get_elem?-drop s j mem) ∙ ap (λ t. get_elem? t j) h.0

  Holds-drop : (s n : ℕ) (m : List ℕ) → n ≤ length m → Holds s m → Holds (s + n) (drop n m)
  Holds-drop s n m le h = (
    sym (drop-drop n s mem) ∙ ap (drop n) h.0 ∙ drop-append n m (0 ∷ spare) le,
    All-drop (λ x. x ≢ 0) n m h.1,
  )

  first_byte :
      (s : ℕ) (m : List ℕ) (x : ℕ)
      → Holds s m
      → get_elem? (m ++ (0 ∷ spare)) 0 ≡ some x
      → get_elem? mem s ≡ some x
  first_byte s m x h e =
      ap (get_elem? mem) (let q : s ≡ s + 0 = omega arith in q) ∙ byte_at s 0 m h ∙ e

  find_loop_here :
      (n s : ℕ) (m : List ℕ)
      → Holds s m
      → is_prefix (y ∷ ys) m ≡ true
      → find_loop (suc n) mem (y ∷ ys) s ≡ index s
  unfolding find_loop
  find_loop_here n s m h pre =
      let long = length-is_prefix (y ∷ ys) m pre in
      let (x, e0, nz) = get_elem?-inside m (0 ∷ spare) 0 h.1 (omega (arith, long)) in
      let e1 = first_byte s m x h e0 in
      let (z, e2) = get_elem?-some m (0 ∷ spare) (suc (length ys)) (omega (arith, long)) in
      let e3 = byte_at s (suc (length ys)) m h ∙ e2 in
      let back : s + suc (length ys) - suc (length ys) ≡ s = omega arith in
      rw (e1, ==_ne x 0 nz, h.0, matched m (0 ∷ spare) s (y ∷ ys) pre, e3) (ap index back)

  -- a round that does not find it goes on at a later place, but not behind the first one
  find_loop_later :
      (n s : ℕ) (m : List ℕ) (i : ℕ)
      → Holds s m
      → IsFirst (y ∷ ys) m (suc i)
      → (k : ℕ) × (k ≤ i)
        × (find_loop (suc n) mem (y ∷ ys) s ≡ find_loop n mem (y ∷ ys) (s + suc k))
  unfolding find_loop
  find_loop_later n s m i h f =
      let t = 0 ∷ spare in
      let long = IsFirst-inside f in
      let (x, e0, nz) = get_elem?-inside m t 0 h.1 (omega (arith, long)) in
      let e1 = first_byte s m x h e0 in
      let r = mismatch (y ∷ ys) m t s (suc i) (f.not_before 0 (omega arith)) (omega arith) f.here in
      let room = get_elem?_lt m (suc i + r.j) r.y r.later in
      let (z, e2, nz2) = get_elem?-inside m t (suc r.j) h.1 (omega (arith, room)) in
      let to_suc : s + suc r.j ≡ suc (s + r.j) = omega arith in
      let e3 : get_elem? mem (suc (s + r.j)) ≡ some z =
        ap (get_elem? mem) (sym to_suc) ∙ byte_at s (suc r.j) m h ∙ e2 in
      let h2 = Holds-drop s (suc r.j) m (omega (arith, room)) h in
      let e4 : drop (suc (s + r.j)) mem ≡ drop (suc r.j) m ++ t =
        ap (λ a. drop a mem) (sym to_suc) ∙ h2.0 in
      let at_e : get_elem? (drop (suc r.j) m) i ≡ some r.y =
        get_elem?-drop (suc r.j) i m
        ∙ ap (get_elem? m) (let q : suc r.j + i ≡ suc i + r.j = omega arith in q)
        ∙ r.later in
      let (k, le, run) = found_next (drop (suc r.j) m) t (suc (s + r.j)) r.y i h2.1 at_e in
      let gone : suc (length ys) - suc (length r.rest) ≡ r.j = omega (arith, r.parts) in
      let back : suc (s + r.j) + k - r.j ≡ s + suc k = omega arith in
      (
        k,
        le,
        rw (e1, ==_ne x 0 nz, h.0, r.run, e3, ==_ne z 0 nz2, e4, run, gone)
            (ap (find_loop n mem (y ∷ ys)) back),
      )

  find_loop-first :
      (n s : ℕ) (m : List ℕ) (i : ℕ)
      → Holds s m
      → IsFirst (y ∷ ys) m i
      → i < n
      → find_loop n mem (y ∷ ys) s ≡ index (s + i)
  find_loop-first zero s m i h f lt = absurd (omega arith)
  find_loop-first (suc n) s m zero h f lt =
      let p : s + 0 ≡ s = omega arith in rw p (find_loop_here n s m h f.here)
  find_loop-first (suc n) s m (suc i) h f lt =
      let (k, le, run) = find_loop_later n s m i h f in
      let long = IsFirst-inside f in
      let rest =
        find_loop-first n (s + suc k) (drop (suc k) m) (suc i - suc k)
          (Holds-drop s (suc k) m (omega (arith, long, le)) h)
          (IsFirst-drop (suc k) f (omega (arith, le))) (omega (arith, le)) in
      let total : s + suc k + (suc i - suc k) ≡ s + suc i = omega (arith, le) in
      run ∙ rest ∙ ap index total

-- `eris_string_find_at` in a string without NUL bytes, whatever is in the spare room of its block: if
-- the substring, which is not empty, stands somewhere from the given index on, the result is the
-- first place from there. No byte behind the block is read, and the rounds are enough.
pub find_at-first :
    (spare xs : List ℕ) (at y : ℕ) (ys : List ℕ) (i : ℕ)
    → All (λ x. x ≢ 0) xs
    → IsFirst (y ∷ ys) (drop at xs) i
    → find_at spare (some xs) at (some (y ∷ ys)) ≡ index (at + i)
unfolding find_at
find_at-first spare xs at y ys i h f =
    let long = IsFirst-inside f in
    let size = length-drop at xs in
    let lt : at < length xs = omega (arith, long, size) in
    let inside : ltb at (length xs) ≡ true = ground (arith, lt) in
    let start : Holds (memory xs spare) spare y ys at (drop at xs) =
      (drop-append at xs (0 ∷ spare) (omega (arith, long, size)), All-drop (λ x. x ≢ 0) at xs h) in
    rw inside (
      find_loop-first (memory xs spare) spare y ys (length (memory xs spare)) at (drop at xs) i
        start f (omega (arith, long, size, length-append xs (0 ∷ spare))))
