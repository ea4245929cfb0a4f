-- ===== src/EString/Split/Fields.antt =====
-- Splitting by one byte.
use erishttp.Common.{
  ℕ, zero, suc, ◌+◌, ◌-◌, ◌≤◌, ◌<◌, ◌≡◌, ◌≢◌, ◌↔◌, refl, sym, ap, subst, ◌∙◌, ◌&&◌, Bool, true,
  false, Option, none, some, List, [], ◌∷◌, ◌++◌, map, All, arith, length, take, drop, Bool-cases,
  inl, inr, length-drop, length-append, ltb, leb, take-append,
}
use erishttp.EString.{EString}
use erishttp.EString.Find.{index, npos}
use erishttp.EString.Find.Places.{IsFirst, drop-drop}
use erishttp.EString.Find.First.{find_at-first}
use erishttp.EString.Find.Absent.{find_at-absent}
use erishttp.EString.Split.{
  Outcome, value, onto, Range, split_loop, cut_at, split_eris, assign, assign_all, array, assigned,
}
use erishttp.EString.Split.Cut.{fields, kept, whole, first, cut}

-- the ranges are the places of the texts
abbrev pub Slices : List ℕ → List Range → List (List ℕ) → Type 0
Slices xs [] [] = Unit {0}
Slices xs [] (w ∷ ws) = ⊥
Slices xs (r ∷ rs) [] = ⊥
Slices xs ((b, e) ∷ rs) (w ∷ ws) =
    (b < e) × (e ≤ length xs) × (take (e - b) (drop b xs) ≡ w) × Slices xs rs ws

take-all : (m : List ℕ) → take (length m) m ≡ m
take-all [] = refl
take-all (x ∷ m) = ap (λ t. x ∷ t) (take-all m)

same_test : (a b c d : ℕ) → ((a < b) ↔ (c < d)) → ltb a b ≡ ltb c d
same_test a b c d h = ground (arith, h)

record Splits (xs : List ℕ) (r : Outcome (List Range)) (ws : List (List ℕ)) : Type 0 where
  pub ranges : List Range
  pub run : r ≡ value ranges
  pub slices : Slices xs ranges ws

last_part :
    (granted : ℕ → Bool) (spare xs : List ℕ) (c k start : ℕ) (m : List ℕ)
    (rest : ℕ → ℕ → Outcome (List Range))
    → granted k ≡ true
    → drop start xs ≡ m
    → start ≤ length xs
    → Splits xs (cut_at granted spare xs (c ∷ []) rest k start npos) (kept (m ∷ []))
last_part granted spare xs c k start m rest ok_k e le =
    let size : length m ≡ length xs - start = ap length (sym e) ∙ length-drop start xs in
    let test =
      same_test (start + 1) (length xs) 1 (length m) ((λ h. omega arith), (λ h. omega arith)) in
    rw test (elim (Bool-cases (ltb 1 (length m))) [
      | inl y ↦
          let room : start < length xs = ground (arith, y, size) in
          rw (y, ok_k)
            (record {
              ranges = (start, length xs) ∷ [];
              run = refl;
              slices = (
                room,
                omega arith,
                ap (take (length xs - start)) e ∙ ap (λ n. take n m) (sym size) ∙ take-all m,
                tt,
              );
            })
      | inr n ↦ rw n (record { ranges = []; run = refl; slices = tt })
    ])

middle_part :
    (granted : ℕ → Bool) (spare xs : List ℕ) (c k start : ℕ) (w m' v : List ℕ) (vs : List (List ℕ))
    (rest : ℕ → ℕ → Outcome (List Range))
    → granted k ≡ true
    → drop start xs ≡ w ++ (c ∷ m')
    → start ≤ length xs
    → ((k' : ℕ) → Splits xs (rest k' (start + length w + 1)) (kept (v ∷ vs)))
    → Splits xs
        (cut_at granted spare xs (c ∷ []) rest k start (index (start + length w)))
        (kept (w ∷ v ∷ vs))
middle_part granted spare xs c k start w m' v vs rest ok_k e le next =
    let size : length (w ++ (c ∷ m')) ≡ length xs - start =
      ap length (sym e) ∙ length-drop start xs in
    let parts = length-append w (c ∷ m') in
    let test =
      same_test start (start + length w) 0 (length w) ((λ h. omega arith), (λ h. omega arith)) in
    rw test (elim (Bool-cases (ltb 0 (length w))) [
      | inl y ↦
          let r = next (suc k) in
          let room : start < start + length w = ground (arith, y) in
          let front : start + length w - start ≡ length w = omega arith in
          rw (y, ok_k, r.run)
            (record {
              ranges = (start, start + length w) ∷ r.ranges;
              run = refl;
              slices = (
                room,
                omega (arith, size, parts),
                rw (front, e) (take-append w (c ∷ m')),
                r.slices,
              );
            })
      | inr n ↦ rw n (next k)
    ])

drop_past : (c : ℕ) (w m' : List ℕ) → drop (length w + 1) (w ++ (c ∷ m')) ≡ m'
drop_past c [] m' = refl
drop_past c (x ∷ w) m' =
    let q : suc (length w) + 1 ≡ suc (length w + 1) = omega arith in rw q (drop_past c w m')

drop-behind :
    (c start : ℕ) (xs w m' : List ℕ)
    → drop start xs ≡ w ++ (c ∷ m')
    → drop (start + length w + 1) xs ≡ m'
drop-behind c start xs w m' e =
    ap (λ a. drop a xs) (let q : start + length w + 1 ≡ start + (length w + 1) = omega arith in q)
    ∙ sym (drop-drop (length w + 1) start xs)
    ∙ ap (drop (length w + 1)) e
    ∙ drop_past c w m'

split_loop-kept :
    (granted : ℕ → Bool) (spare xs : List ℕ) (c n k start : ℕ) (m : List ℕ)
    → ((i : ℕ) → granted i ≡ true)
    → All (λ x. x ≢ 0) xs
    → drop start xs ≡ m
    → start ≤ length xs
    → length m < n
    → Splits xs (split_loop granted spare xs (c ∷ []) n k start) (kept (fields c m))
unfolding split_loop
split_loop-kept granted spare xs c zero k start m ok_all nz e le lt = absurd (omega arith)
split_loop-kept granted spare xs c (suc n) k start m ok_all nz e le lt = elim (cut c m) [
  | whole ne parts ↦
      rw (find_at-absent spare xs start c nz (subst (All (λ x. x ≢ c)) (sym e) ne), parts)
        (last_part granted spare xs c k start m (split_loop granted spare xs (c ∷ []) n) (ok_all k)
          e le)
  | first w m' v vs split f rest parts ↦
      let size : length m ≡ length xs - start = ap length (sym e) ∙ length-drop start xs in
      let lengths : length m ≡ length w + suc (length m') =
        ap length split ∙ length-append w (c ∷ m') in
      rw
        (
          find_at-first spare xs start c [] (length w) nz
              (subst (λ t. IsFirst (c ∷ []) t (length w)) (sym e) f),
          parts,
        )
        (middle_part granted spare xs c k start w m' v vs (split_loop granted spare xs (c ∷ []) n)
          (ok_all k) (e ∙ split) le
          (λ k'.
            subst
              (λ t.
                Splits xs (split_loop granted spare xs (c ∷ []) n k' (start + length w + 1))
                  (kept t))
              rest
              (split_loop-kept granted spare xs c n k' (start + length w + 1) m' ok_all nz
                (drop-behind c start xs w m' (e ∙ split)) (omega (arith, size, lengths))
                (omega (arith, lengths)))))
]

assign_slice :
    (xs : List ℕ) (b e : ℕ) (w : List ℕ)
    → b < e
    → e ≤ length xs
    → take (e - b) (drop b xs) ≡ w
    → assign true (some xs) b e ≡ some w
unfolding assign
assign_slice xs b e w lt le text =
    let keep : ltb (length xs) e ≡ false = ground (arith, le) in
    let inside : (ltb b (length xs) && leb b e) ≡ true = ground (arith, lt, le) in
    let before : ltb b e ≡ true = ground (arith, lt) in rw (keep, inside, before) (ap some text)

assign_all-Slices :
    (granted : ℕ → Bool) (k : ℕ) (xs : List ℕ) (rs : List Range) (ws : List (List ℕ))
    → ((i : ℕ) → granted i ≡ true)
    → Slices xs rs ws
    → assign_all granted k xs rs ≡ value (map some ws)
unfolding assign_all
assign_all-Slices granted k xs [] [] ok_all h = refl
assign_all-Slices granted k xs [] (w ∷ ws) ok_all h = absurd h
assign_all-Slices granted k xs (r ∷ rs) [] ok_all h = absurd h
assign_all-Slices granted k xs ((b, e) ∷ rs) (w ∷ ws) ok_all (lt, le, text, h) =
    rw (ok_all k, assign_slice xs b e w lt le text)
      (ap (onto (some w)) (assign_all-Slices granted (suc k) xs rs ws ok_all h))

-- the array of texts; none if there is no text
abbrev pub array_of : List (List ℕ) → Option (List EString)
array_of [] = none
array_of (w ∷ ws) = some (map some (w ∷ ws))

array-Slices :
    (pieces : ℕ → Bool) (xs : List ℕ) (rs : List Range) (ws : List (List ℕ))
    → ((i : ℕ) → pieces i ≡ true)
    → Slices xs rs ws
    → array true pieces xs (value rs) ≡ value (array_of ws)
array-Slices pieces xs [] [] ok_all h = refl
array-Slices pieces xs [] (w ∷ ws) ok_all h = absurd h
array-Slices pieces xs (r ∷ rs) [] ok_all h = absurd h
array-Slices pieces xs (r ∷ rs) (w ∷ ws) ok_all h =
    ap assigned (assign_all-Slices pieces 0 xs (r ∷ rs) (w ∷ ws) ok_all h)

-- `eris_string_split_eris` of a string without NUL bytes by one byte, whatever is in the spare room of
-- its block, if there is memory: the array has the parts between the separators in their order,
-- without the empty ones, and without the last one if it has one byte; it is NULL if none is left.
pub split_eris-kept :
    (ranges pieces : ℕ → Bool) (spare xs : List ℕ) (c : ℕ)
    → ((i : ℕ) → ranges i ≡ true)
    → ((i : ℕ) → pieces i ≡ true)
    → All (λ x. x ≢ 0) xs
    → split_eris ranges true pieces spare (some xs) (c ∷ []) ≡ value (array_of (kept (fields c xs)))
unfolding split_eris
split_eris-kept ranges pieces spare xs c ok_ranges ok_pieces nz =
    let r =
      split_loop-kept ranges spare xs c (suc (length xs)) 0 0 xs ok_ranges nz refl (omega arith)
        (omega arith) in
    ap (array true pieces xs) r.run
    ∙ array-Slices pieces xs r.ranges (kept (fields c xs)) ok_pieces r.slices
