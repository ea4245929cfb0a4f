-- ===== src/EventQueue/Fifo.antt =====
-- The contents of the event queue: what a write and a read of the pool do to them.
use erishttp.Common.{
  ℕ, zero, suc, ◌+◌, ◌-◌, ◌%◌, ◌<◌, ◌≡◌, ◌≢◌, refl, sym, ◌∙◌, ap, Option, some, List, [], ◌∷◌, ◌++◌,
  arith, length, get_elem?, set,
}
use native.Mathlib.Nat.{mod-add-mod, mod-eq_of_lt, mod-eq-sub-mod}
use native.Mathlib.Decide.{dec_lt}
use erishttp.EventQueue.{Elem, EventQueue, stored, taken}
use erishttp.EventQueue.Inv.{IsValid}

module _ {A : Type 0} where
  pub get_elem?-set_hit :
      (xs : List A) (i : ℕ) (v : A) → i < length xs → get_elem? (set xs i v) i ≡ some v
  get_elem?-set_hit [] i v h = absurd (omega arith)
  get_elem?-set_hit (x ∷ xs) zero v h = refl
  get_elem?-set_hit (x ∷ xs) (suc i) v h = get_elem?-set_hit xs i v (omega arith)

  pub get_elem?-set_miss :
      (xs : List A) (i j : ℕ) (v : A) → i ≢ j → get_elem? (set xs i v) j ≡ get_elem? xs j
  get_elem?-set_miss [] i j v h = refl
  get_elem?-set_miss (x ∷ xs) zero zero v h = absurd (h refl)
  get_elem?-set_miss (x ∷ xs) zero (suc j) v h = refl
  get_elem?-set_miss (x ∷ xs) (suc i) zero v h = refl
  get_elem?-set_miss (x ∷ xs) (suc i) (suc j) v h = get_elem?-set_miss xs i j v (λ e. h (ap suc e))

-- the elements at `n` places of the pool from `i` on, going round at `max`
abbrev pub slots : ℕ → List Elem → ℕ → ℕ → List (Option Elem)
slots max events i zero = []
slots max events i (suc n) = get_elem? events i ∷ slots max events ((i + 1) % max) n

abbrev pub contents : EventQueue → List (Option Elem)
contents q = slots q.max q.events q.front q.count

pub length-slots : (max : ℕ) (es : List Elem) (i n : ℕ) → length (slots max es i n) ≡ n
length-slots max es i zero = refl
length-slots max es i (suc n) = ap suc (length-slots max es ((i + 1) % max) n)

-- Fewer than `max` steps round the pool do not lead back.
add-mod-ne : (max i k : ℕ) → i < max → 0 < k → k < max → (i + k) % max ≢ i
add-mod-ne max i k hi pos hk = elim (dec_lt (i + k) max) [
  | yes p ↦ omega (arith, mod-eq_of_lt p)
  | no p ↦ omega (
    arith,
    mod-eq-sub-mod {n = i + k} {m = max} (omega arith),
    mod-eq_of_lt {n = i + k - max} {m = max} (omega arith),
  )
]

-- A write at the place behind a run of elements extends the run by that element.
slots-set :
    (max : ℕ) (es : List Elem) (e : Elem) (n i j : ℕ)
    → length es ≡ max
    → i < max
    → n < max
    → j ≡ (i + n) % max
    → slots max (set es j e) i (suc n) ≡ slots max es i n ++ (some e ∷ [])
slots-set max es e zero i j l hi hn at =
    let at' : j ≡ i = at ∙ ap (λ k. k % max) (omega arith) ∙ mod-eq_of_lt hi in
    rw at' (rw (get_elem?-set_hit es i e (omega arith)) refl)
slots-set max es e (suc n) i j l hi hn at =
    let next : j ≡ ((i + 1) % max + n) % max =
      at ∙ ap (λ k. k % max) (omega arith) ∙ sym (mod-add-mod (i + 1) max n) in
    let away : j ≢ i = λ same. add-mod-ne max i (suc n) hi (omega arith) hn (sym at ∙ same) in
    rw (get_elem?-set_miss es j i e away) (
      ap (λ t. get_elem? es i ∷ t)
        (slots-set max es e n ((i + 1) % max) j l (omega arith) (omega arith) next))

pub contents-stored :
    {q : EventQueue} (e : Elem) → IsValid q → contents (stored q e) ≡ contents q ++ (some e ∷ [])
contents-stored {q} e v =
    let c : q.count + 1 ≡ suc q.count = omega arith in
    rw c (slots-set q.max q.events e q.count q.front q.near v.pool v.front_in v.spare v.near_at)

pub contents-taken :
    {q : EventQueue}
    → IsValid q
    → 0 < q.count
    → contents q ≡ get_elem? q.events q.front ∷ contents (taken q)
contents-taken {q} v h = split q.count h
  where
    split :
        (n : ℕ)
        → 0 < n
        → slots q.max q.events q.front n
          ≡ get_elem? q.events q.front ∷ slots q.max q.events ((q.front + 1) % q.max) (n - 1)
    split zero h = absurd (omega arith)
    split (suc n) h =
        ap (λ k. get_elem? q.events q.front ∷ slots q.max q.events ((q.front + 1) % q.max) k)
          (omega arith)
