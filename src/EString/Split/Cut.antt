-- ===== src/EString/Split/Cut.antt =====
-- The parts of a text between separators.
use erishttp.Common.{
  ℕ, zero, suc, ◌<◌, ◌≡◌, ◌≢◌, refl, ap, true, false, List, [], ◌∷◌, ◌++◌, All, arith, length, drop,
  ◌==◌, ==_iff, Bool-cases, inl, inr, if◌then◌else◌, ltb,
}
use erishttp.EString.Find.Places.{IsFirst, is_prefix}

-- the parts between the bytes `c`, of which there is one more than bytes `c`
abbrev pub add_front : ℕ → List (List ℕ) → List (List ℕ)
add_front x [] = (x ∷ []) ∷ []
add_front x (w ∷ ws) = (x ∷ w) ∷ ws

abbrev pub fields : ℕ → List ℕ → List (List ℕ)
fields c [] = [] ∷ []
fields c (x ∷ xs) = let rest = fields c xs in if x == c then [] ∷ rest else add_front x rest

-- what a split keeps: an empty part is dropped, and so is a last part of one byte
abbrev pub kept : List (List ℕ) → List (List ℕ)
kept [] = []
kept (w ∷ []) = if ltb 1 (length w) then w ∷ [] else []
kept (w ∷ w' ∷ ws) = let rest = kept (w' ∷ ws) in if ltb 0 (length w) then w ∷ rest else rest

-- the bytes before the first `c`
pub data Cut (c : ℕ) (m : List ℕ) : Type 0 where
  whole : All (λ x. x ≢ c) m → fields c m ≡ m ∷ [] → Cut c m
  first :
      (w m' v : List ℕ) (vs : List (List ℕ))
      → m ≡ w ++ (c ∷ m')
      → IsFirst (c ∷ []) m (length w)
      → fields c m' ≡ v ∷ vs
      → fields c m ≡ w ∷ v ∷ vs
      → Cut c m

pub fields-cons : (c : ℕ) (m : List ℕ) → (v : List ℕ) × (vs : List (List ℕ)) × (fields c m ≡ v ∷ vs)
fields-cons c [] = ([], [], refl)
fields-cons c (x ∷ m) = elim (Bool-cases (x == c)) [
  | inl y ↦ ([], fields c m, rw y refl)
  | inr n ↦ let (v, vs, e) = fields-cons c m in (x ∷ v, vs, rw (n, e) refl)
]

pub IsFirst-here : (c x : ℕ) (m : List ℕ) → (x == c) ≡ true → IsFirst (c ∷ []) (x ∷ m) 0
IsFirst-here c x m y = record { here = rw y refl; not_before = λ k lt. absurd (omega arith) }

pub IsFirst-later :
    (c x : ℕ) (m : List ℕ) (i : ℕ)
    → (x == c) ≡ false
    → IsFirst (c ∷ []) m i
    → IsFirst (c ∷ []) (x ∷ m) (suc i)
IsFirst-later c x m i n f = record { here = f.here; not_before = before }
  where
    before : (k : ℕ) → k < suc i → is_prefix (c ∷ []) (drop k (x ∷ m)) ≡ false
    before zero lt = rw n refl
    before (suc k) lt = f.not_before k (omega arith)

pub different : {x c : ℕ} → (x == c) ≡ false → x ≢ c
different n q = ground (arith, n, q)

pub cut : (c : ℕ) (m : List ℕ) → Cut c m
cut c [] = whole tt refl
cut c (x ∷ m) = elim (Bool-cases (x == c)) [
  | inl y ↦
      let (v, vs, e) = fields-cons c m in
      first [] m v vs (ap (λ a. a ∷ m) ((==_iff x c).0 y)) (IsFirst-here c x m y) e
        (rw y (ap (λ t. [] ∷ t) e))
  | inr n ↦ elim (cut c m) [
    | whole ne e ↦ whole ((λ q. different n q), ne) (rw (n, e) refl)
    | first w m' v vs split f e e' ↦
        first (x ∷ w) m' v vs (ap (λ t. x ∷ t) split) (IsFirst-later c x m (length w) n f) e
          (rw (n, e') refl)
  ]
]
