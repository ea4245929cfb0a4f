-- ===== src/EString/Find/Places.antt =====
-- Where a text stands in another one, and what is at an index.
use erishttp.Common.{
  ℕ, zero, suc, ◌+◌, ◌-◌, ◌≤◌, ◌<◌, ◌≡◌, ◌≢◌, refl, ap, ◌&&◌, Bool, true, false, some, List, [],
  ◌∷◌, ◌++◌, All, arith, length, get_elem?, drop, ◌==◌, ==_iff, length-drop,
}

abbrev pub is_prefix : List ℕ → List ℕ → Bool
is_prefix [] m = true
is_prefix (y ∷ d) [] = false
is_prefix (y ∷ d) (x ∷ m) = (x == y) && is_prefix d m

-- `substr` stands at `i` of `xs`, and nowhere before
pub record IsFirst (substr xs : List ℕ) (i : ℕ) : Type 0 where
  pub here : is_prefix substr (drop i xs) ≡ true
  pub not_before : (k : ℕ) → k < i → is_prefix substr (drop k xs) ≡ false

pub drop-drop : (a b : ℕ) (m : List ℕ) → drop a (drop b m) ≡ drop (b + a) m
drop-drop a zero m = let p : 0 + a ≡ a = omega arith in rw p refl
drop-drop zero (suc b) [] = let p : suc b + 0 ≡ suc b = omega arith in rw p refl
drop-drop (suc a) (suc b) [] = let p : suc b + suc a ≡ suc (b + suc a) = omega arith in rw p refl
drop-drop a (suc b) (x ∷ m) =
    let p : suc b + a ≡ suc (b + a) = omega arith in rw p (drop-drop a b m)

pub drop-append : (a : ℕ) (m t : List ℕ) → a ≤ length m → drop a (m ++ t) ≡ drop a m ++ t
drop-append zero m t h = refl
drop-append (suc a) [] t h = absurd (omega arith)
drop-append (suc a) (x ∷ m) t h = drop-append a m t (omega arith)

pub get_elem?-drop : (a b : ℕ) (m : List ℕ) → get_elem? (drop a m) b ≡ get_elem? m (a + b)
get_elem?-drop zero b m = let p : 0 + b ≡ b = omega arith in rw p refl
get_elem?-drop (suc a) b [] = refl
get_elem?-drop (suc a) b (x ∷ m) =
    let p : suc a + b ≡ suc (a + b) = omega arith in rw p (get_elem?-drop a b m)

pub get_elem?-some :
    (m t : List ℕ) (i : ℕ) → i < length m + length t → (x : ℕ) × (get_elem? (m ++ t) i ≡ some x)
get_elem?-some [] [] i h = absurd (omega arith)
get_elem?-some [] (x ∷ t) zero h = (x, refl)
get_elem?-some [] (x ∷ t) (suc i) h = get_elem?-some [] t i (omega arith)
get_elem?-some (x ∷ m) t zero h = (x, refl)
get_elem?-some (x ∷ m) t (suc i) h = get_elem?-some m t i (omega arith)

pub head_prefix : (y : ℕ) (d m : List ℕ) → is_prefix (y ∷ d) m ≡ true → get_elem? m 0 ≡ some y
head_prefix y d [] h = absurd (ground arith)
head_prefix y d (x ∷ m) h = ap some ((==_iff x y).0 (ground arith))

pub tail_prefix :
    (y x : ℕ) (d m : List ℕ) (i : ℕ)
    → is_prefix (y ∷ d) (drop i (x ∷ m)) ≡ true
    → is_prefix d (drop i m) ≡ true
tail_prefix y x d m zero h = ground arith
tail_prefix y x d [] (suc zero) h = absurd (ground arith)
tail_prefix y x d [] (suc (suc i)) h = absurd (ground arith)
tail_prefix y x d (x' ∷ m) (suc i) h = tail_prefix y x' d m i h

pub length-is_prefix : (d m : List ℕ) → is_prefix d m ≡ true → length d ≤ length m
length-is_prefix [] m h = omega arith
length-is_prefix (y ∷ d) [] h = absurd (ground arith)
length-is_prefix (y ∷ d) (x ∷ m) h =
    let p : is_prefix d m ≡ true = ground (arith, h) in omega (arith, length-is_prefix d m p)

pub get_elem?-inside :
    (m t : List ℕ) (i : ℕ)
    → All (λ x. x ≢ 0) m
    → i < length m
    → (x : ℕ) × (get_elem? (m ++ t) i ≡ some x) × (x ≢ 0)
get_elem?-inside [] t i h lt = absurd (omega arith)
get_elem?-inside (x ∷ m) t zero (nz, h) lt = (x, refl, nz)
get_elem?-inside (x ∷ m) t (suc i) (nz, h) lt = get_elem?-inside m t i h (omega arith)

pub get_elem?_lt : (m : List ℕ) (i y : ℕ) → get_elem? m i ≡ some y → i < length m
get_elem?_lt [] i y h = absurd (ground (arith, h))
get_elem?_lt (x ∷ m) zero y h = omega arith
get_elem?_lt (x ∷ m) (suc i) y h = omega (arith, get_elem?_lt m i y h)

pub All-drop : (P : ℕ → Type 0) (n : ℕ) (m : List ℕ) → All P m → All P (drop n m)
All-drop P zero m h = h
All-drop P (suc n) [] h = h
All-drop P (suc n) (x ∷ m) h = All-drop P n m h.1

pub IsFirst-drop :
    {d m : List ℕ} {i : ℕ} (n : ℕ) → IsFirst d m i → n ≤ i → IsFirst d (drop n m) (i - n)
IsFirst-drop {d} {m} {i} n f le = record {
  here = let p : n + (i - n) ≡ i = omega arith in rw (drop-drop (i - n) n m, p) f.here;
  not_before = λ k lt. rw (drop-drop k n m) (f.not_before (n + k) (omega arith));
}

pub IsFirst-inside :
    {y : ℕ} {ys m : List ℕ} {i : ℕ} → IsFirst (y ∷ ys) m i → i + suc (length ys) ≤ length m
IsFirst-inside {y} {ys} {m} {i} f =
    omega (arith, length-is_prefix (y ∷ ys) (drop i m) f.here, length-drop i m)
