-- ===== src/EString/Replace/Bytes.antt =====
-- The bytes of a block after writing and moving.
use erishttp.Common.{
  ℕ, zero, suc, ◌+◌, ◌≤◌, ◌<◌, ◌≡◌, ◌≢◌, ◌⊎◌, inl, inr, refl, sym, ap, ◌∙◌, true, false, List, [],
  ◌∷◌, length, get_or, set, length-set, get_or-set_self, get_or-set_ne, ◌==◌, ==_ne, ==_iff,
  Bool-cases, ltb, arith,
}
use erishttp.EString.Replace.{write, shift_left, fill, shift_right}

pub length-write : (at : ℕ) (cs m : List ℕ) → length (write at cs m) ≡ length m
unfolding write
length-write at [] m = refl
length-write at (c ∷ cs) m = length-write (suc at) cs (set m at c) ∙ length-set m at c

pub write-outside :
    (at i : ℕ) (cs m : List ℕ)
    → (i < at) ⊎ (at + length cs ≤ i)
    → get_or (write at cs m) i 0 ≡ get_or m i 0
unfolding write
write-outside at i [] m h = refl
write-outside at i (c ∷ cs) m h =
    write-outside (suc at) i cs (set m at c) (ground (arith, h))
    ∙ get_or-set_ne m at i c 0 (λ e. ground (arith, e, h))

pub write-inside :
    (at i : ℕ) (cs m : List ℕ)
    → at + length cs ≤ length m
    → i < length cs
    → get_or (write at cs m) (at + i) 0 ≡ get_or cs i 0
unfolding write
write-inside at i [] m h k = absurd (omega arith)
write-inside at zero (c ∷ cs) m h k =
    let q : at + 0 ≡ at = omega arith in
    rw q (
      write-outside (suc at) at cs (set m at c) (inl (omega arith))
      ∙ get_or-set_self m at c 0 (omega arith))
write-inside at (suc i) (c ∷ cs) m h k =
    let q : at + suc i ≡ suc at + i = omega arith in
    rw q (write-inside (suc at) i cs (set m at c) (omega (arith, length-set m at c)) (omega arith))

pub fill-outside : (k at i : ℕ) (m : List ℕ) → i < at → get_or (fill k at m) i 0 ≡ get_or m i 0
unfolding fill
fill-outside zero at i m h = refl
fill-outside (suc k) at i m h =
    fill-outside k (suc at) i (set m at 0) (omega arith)
    ∙ get_or-set_ne m at i 0 0 (λ e. omega (arith, e))

pub length-shift_right :
    (k low step : ℕ) (m : List ℕ) → length (shift_right k low step m) ≡ length m
unfolding shift_right
length-shift_right zero low step m = refl
length-shift_right (suc k) low step m =
    length-shift_right k low step (set m (low + k + step) (get_or m (low + k) 0))
    ∙ length-set m (low + k + step) (get_or m (low + k) 0)

pub shift_right-outside :
    (k low step i : ℕ) (m : List ℕ)
    → (i < low + step) ⊎ (low + step + k ≤ i)
    → get_or (shift_right k low step m) i 0 ≡ get_or m i 0
unfolding shift_right
shift_right-outside zero low step i m h = refl
shift_right-outside (suc k) low step i m h =
    shift_right-outside k low step i (set m (low + k + step) (get_or m (low + k) 0))
      (ground (arith, h))
    ∙ get_or-set_ne m (low + k + step) i (get_or m (low + k) 0) 0 (λ e. ground (arith, e, h))

pub shift_right-inside :
    (k low step i : ℕ) (m : List ℕ)
    → low + step + k ≤ length m
    → i < k
    → get_or (shift_right k low step m) (low + step + i) 0 ≡ get_or m (low + i) 0
unfolding shift_right
shift_right-inside zero low step i m h lt = absurd (omega arith)
shift_right-inside (suc k) low step i m h lt = elim (Bool-cases (ltb i k)) [
  | inl y ↦
      let below : i < k = ground (arith, y) in
      shift_right-inside k low step i (set m (low + k + step) (get_or m (low + k) 0))
        (omega (arith, length-set m (low + k + step) (get_or m (low + k) 0))) below
      ∙ get_or-set_ne m (low + k + step) (low + i) (get_or m (low + k) 0) 0
          (λ e. omega (arith, e, below))
  | inr n ↦
      let last : i ≡ k = ground (arith, n, lt) in
      let q : low + step + k ≡ low + k + step = omega arith in
      rw last (
        shift_right-outside k low step (low + step + k)
          (set m (low + k + step) (get_or m (low + k) 0)) (inr (omega arith))
        ∙ ap (λ j. get_or (set m (low + k + step) (get_or m (low + k) 0)) j 0) q
        ∙ get_or-set_self m (low + k + step) (get_or m (low + k) 0) 0 (omega arith))
]

pub record Shifted (to from k : ℕ) (m : List ℕ) (r : ℕ × List ℕ) : Type 0 where
  pub end : r.0 ≡ to + k
  pub before : (i : ℕ) → i < to → get_or r.1 i 0 ≡ get_or m i 0
  pub inside : (i : ℕ) → i < k → get_or r.1 (to + i) 0 ≡ get_or m (from + i) 0

nothing-Shifted : (to from : ℕ) (m : List ℕ) → Shifted to from 0 m (to, m)
nothing-Shifted to from m = record {
  end = omega arith;
  before = λ i h. refl;
  inside = λ i h. absurd (omega arith);
}

first-Shifted :
    (to from k : ℕ) (m : List ℕ) (r : ℕ × List ℕ)
    → to ≤ from
    → from < length m
    → Shifted (suc to) (suc from) k (set m to (get_or m from 0)) r
    → Shifted to from (suc k) m r
first-Shifted to from k m r below room s = record {
  end = omega (arith, s.end);
  before = λ i h.
      s.before i (omega arith)
      ∙ get_or-set_ne m to i (get_or m from 0) 0 (λ e. omega (arith, e, h));
  inside = inside;
}
  where
    inside : (i : ℕ) → i < suc k → get_or r.1 (to + i) 0 ≡ get_or m (from + i) 0
    inside zero h =
        let p : to + 0 ≡ to = omega arith in
        let q : from + 0 ≡ from = omega arith in
        rw (p, q)
          (s.before to (omega arith) ∙ get_or-set_self m to (get_or m from 0) 0 (omega arith))
    inside (suc i) h =
        let p : to + suc i ≡ suc to + i = omega arith in
        let q : from + suc i ≡ suc from + i = omega arith in
        rw (p, q)
          (s.inside i (omega arith)
            ∙ get_or-set_ne m to (suc from + i) (get_or m from 0) 0 (λ e. omega (arith, e, below)))

-- the text from `from` on has `k` bytes
pub shift_left-Shifted :
    (n to from k : ℕ) (m : List ℕ)
    → k ≤ n
    → to ≤ from
    → from + k < length m
    → ((i : ℕ) → i < k → get_or m (from + i) 0 ≢ 0)
    → get_or m (from + k) 0 ≡ 0
    → Shifted to from k m (shift_left n to from m)
unfolding shift_left
shift_left-Shifted zero to from zero m le below room text ends = nothing-Shifted to from m
shift_left-Shifted zero to from (suc k) m le below room text ends = absurd (omega arith)
shift_left-Shifted (suc n) to from zero m le below room text ends =
    let q : from + 0 ≡ from = omega arith in
    let nul : get_or m from 0 ≡ 0 = ap (λ j. get_or m j 0) (sym q) ∙ ends in
    let stops : (get_or m from 0 == 0) ≡ true = (==_iff (get_or m from 0) 0).1 nul in
    rw stops (nothing-Shifted to from m)
shift_left-Shifted (suc n) to from (suc k) m le below room text ends =
    let v = get_or m from 0 in
    let q : from ≡ from + 0 = omega arith in
    let goes : (get_or m from 0 == 0) ≡ false =
      ==_ne (get_or m from 0) 0 (λ e. text 0 (omega arith) (ap (λ j. get_or m j 0) (sym q) ∙ e)) in
    rw goes (
      first-Shifted to from k m (shift_left n (suc to) (suc from) (set m to v)) below (omega arith)
        (shift_left-Shifted n (suc to) (suc from) k (set m to v) (omega arith) (omega arith)
          (omega (arith, length-set m to v)) (λ i h e. text (suc i) (omega arith) (kept_byte i ∙ e))
          (sym (kept_byte k) ∙ ends)))
  where
    kept_byte :
        (i : ℕ) → get_or m (from + suc i) 0 ≡ get_or (set m to (get_or m from 0)) (suc from + i) 0
    kept_byte i =
        let p : from + suc i ≡ suc from + i = omega arith in
        ap (λ j. get_or m j 0) p
        ∙ sym (get_or-set_ne m to (suc from + i) (get_or m from 0) 0 (λ e. omega (arith, e, below)))

pub length-fill : (k at : ℕ) (m : List ℕ) → length (fill k at m) ≡ length m
unfolding fill
length-fill zero at m = refl
length-fill (suc k) at m = length-fill k (suc at) (set m at 0) ∙ length-set m at 0

pub length-shift_left : (n to from : ℕ) (m : List ℕ) → length (shift_left n to from m).1 ≡ length m
unfolding shift_left
length-shift_left zero to from m = refl
length-shift_left (suc n) to from m = ground (
  arith,
  length-shift_left n (suc to) (suc from) (set m to (get_or m from 0)),
  length-set m to (get_or m from 0),
)
