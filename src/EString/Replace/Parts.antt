-- ===== src/EString/Replace/Parts.antt =====
-- The parts of a text after a replacement in place.
use erishttp.Common.{
  ℕ, zero, suc, ◌+◌, ◌-◌, ◌≤◌, ◌<◌, ◌≡◌, ◌≢◌, inl, inr, sym, ap, ◌∙◌, List, [], ◌∷◌, ◌++◌, All,
  length, get_or, take, drop, length-append, length-take, length-drop, get_or-append_left,
  get_or-append_right, get_or-drop, get_or-take, ltb, Bool-cases, arith,
}
use erishttp.EString.Find.{memory}
use erishttp.EString.Reverse.{get_or_ext}
use erishttp.EString.Replace.{write, shift_left, shift_right, filled, shrunk, grown}
use erishttp.EString.Replace.Bytes.{
  length-write, write-outside, write-inside, fill-outside, length-shift_right, shift_right-outside,
  shift_right-inside, shift_left-Shifted, length-fill, length-shift_left,
}

abbrev pub replaced : ℕ → ℕ → List ℕ → List ℕ → List ℕ
replaced pos sub rep xs = take pos xs ++ (rep ++ drop (pos + sub) xs)

-- `g` begins with the bytes before the substring, the replacement and the bytes behind
pub record Parts (pos sub : ℕ) (rep xs g : List ℕ) : Type 0 where
  pub before : (i : ℕ) → i < pos → get_or g i 0 ≡ get_or xs i 0
  pub middle : (i : ℕ) → i < length rep → get_or g (pos + i) 0 ≡ get_or rep i 0
  pub behind :
      (i : ℕ)
      → pos + sub + i < length xs
      → get_or g (pos + length rep + i) 0 ≡ get_or xs (pos + sub + i) 0
  pub room : length xs + length rep ≤ length g + sub

pub length-replaced :
    (pos sub : ℕ) (rep xs : List ℕ)
    → pos + sub ≤ length xs
    → length (replaced pos sub rep xs) + sub ≡ length xs + length rep
length-replaced pos sub rep xs h = omega (
  arith,
  length-append (take pos xs) (rep ++ drop (pos + sub) xs),
  length-append rep (drop (pos + sub) xs),
  length-take pos xs,
  length-drop (pos + sub) xs,
)

replaced-before :
    (pos sub i : ℕ) (rep xs : List ℕ)
    → pos + sub ≤ length xs
    → i < pos
    → get_or (replaced pos sub rep xs) i 0 ≡ get_or xs i 0
replaced-before pos sub i rep xs h lt =
    get_or-append_left (take pos xs) (rep ++ drop (pos + sub) xs) i 0
      (omega (arith, length-take pos xs))
    ∙ get_or-take pos i xs 0 lt

replaced-middle :
    (pos sub i : ℕ) (rep xs : List ℕ)
    → pos + sub ≤ length xs
    → i < length rep
    → get_or (replaced pos sub rep xs) (pos + i) 0 ≡ get_or rep i 0
replaced-middle pos sub i rep xs h lt =
    let q : pos + i ≡ length (take pos xs) + i = omega (arith, length-take pos xs) in
    ap (λ j. get_or (replaced pos sub rep xs) j 0) q
    ∙ get_or-append_right (take pos xs) (rep ++ drop (pos + sub) xs) i 0
    ∙ get_or-append_left rep (drop (pos + sub) xs) i 0 lt

replaced-behind :
    (pos sub i : ℕ) (rep xs : List ℕ)
    → pos + sub ≤ length xs
    → get_or (replaced pos sub rep xs) (pos + length rep + i) 0 ≡ get_or xs (pos + sub + i) 0
replaced-behind pos sub i rep xs h =
    let q : pos + length rep + i ≡ length (take pos xs) + (length rep + i) =
      omega (arith, length-take pos xs) in
    ap (λ j. get_or (replaced pos sub rep xs) j 0) q
    ∙ get_or-append_right (take pos xs) (rep ++ drop (pos + sub) xs) (length rep + i) 0
    ∙ get_or-append_right rep (drop (pos + sub) xs) i 0
    ∙ get_or-drop (pos + sub) i xs 0

pub take-Parts :
    (pos sub n : ℕ) (rep xs g : List ℕ)
    → pos + sub ≤ length xs
    → n + sub ≡ length xs + length rep
    → Parts pos sub rep xs g
    → take n g ≡ replaced pos sub rep xs
take-Parts pos sub n rep xs g h size p =
    get_or_ext (take n g) (replaced pos sub rep xs)
      (omega (arith, length-take n g, length-replaced pos sub rep xs h, p.room))
      (λ i lt.
        get_or-take n i g 0 (omega (arith, lt, length-take n g))
        ∙ at i (omega (arith, lt, length-take n g)))
  where
    at : (i : ℕ) → i < n → get_or g i 0 ≡ get_or (replaced pos sub rep xs) i 0
    at i lt = elim (Bool-cases (ltb i pos)) [
      | inl y ↦
          let k : i < pos = ground (arith, y) in
          p.before i k ∙ sym (replaced-before pos sub i rep xs h k)
      | inr n1 ↦ elim (Bool-cases (ltb (i - pos) (length rep))) [
        | inl y ↦
            let k : i - pos < length rep = ground (arith, y) in
            let q : i ≡ pos + (i - pos) = ground (arith, n1) in
            ap (λ j. get_or g j 0) q
            ∙ p.middle (i - pos) k
            ∙ sym (replaced-middle pos sub (i - pos) rep xs h k)
            ∙ ap (λ j. get_or (replaced pos sub rep xs) j 0) (sym q)
        | inr n2 ↦
            let q : i ≡ pos + length rep + (i - pos - length rep) = ground (arith, n1, n2) in
            ap (λ j. get_or g j 0) q
            ∙ p.behind (i - pos - length rep) (omega (arith, q, lt, size))
            ∙ sym (replaced-behind pos sub (i - pos - length rep) rep xs h)
            ∙ ap (λ j. get_or (replaced pos sub rep xs) j 0) (sym q)
      ]
    ]

-- the bytes of a block
memory-text :
    (xs spare : List ℕ) (i : ℕ) → i < length xs → get_or (memory xs spare) i 0 ≡ get_or xs i 0
memory-text xs spare i h = get_or-append_left xs (0 ∷ spare) i 0 h

memory-nul : (xs spare : List ℕ) → get_or (memory xs spare) (length xs) 0 ≡ 0
memory-nul xs spare =
    ap (λ j. get_or (memory xs spare) j 0) (let q : length xs ≡ length xs + 0 = omega arith in q)
    ∙ get_or-append_right xs (0 ∷ spare) 0 0

All-get_or : (xs : List ℕ) (i : ℕ) → All (λ x. x ≢ 0) xs → i < length xs → get_or xs i 0 ≢ 0
All-get_or [] i h lt = absurd (omega arith)
All-get_or (x ∷ xs) zero h lt = h.0
All-get_or (x ∷ xs) (suc i) h lt = All-get_or xs i h.1 (omega arith)

pub grown-Parts :
    (pos sub : ℕ) (rep xs spare : List ℕ)
    → pos + sub ≤ length xs
    → sub < length rep
    → length rep - sub ≤ length spare
    → Parts pos sub rep xs (grown pos sub rep (length xs) (memory xs spare))
grown-Parts pos sub rep xs spare h longer fits =
    let m = memory xs spare in
    let step = length rep - sub in
    let k = length xs - (pos + sub) + 1 in
    let r = shift_right k (pos + sub) step m in
    let lm : length m ≡ length xs + suc (length spare) = length-append xs (0 ∷ spare) in
    let lr : length r ≡ length m = length-shift_right k (pos + sub) step m in
    record {
      before = λ i lt.
          write-outside pos i rep r (inl lt)
          ∙ shift_right-outside k (pos + sub) step i m (inl (omega (arith, lt)))
          ∙ memory-text xs spare i (omega (arith, lt, h));
      middle = λ i lt. write-inside pos i rep r (omega (arith, lm, lr, h, fits, longer)) lt;
      behind = λ i lt.
          let q : pos + length rep + i ≡ pos + sub + step + i = omega (arith, longer) in
          write-outside pos (pos + length rep + i) rep r (inr (omega arith))
          ∙ ap (λ j. get_or r j 0) q
          ∙ shift_right-inside k (pos + sub) step i m (omega (arith, lm, h, fits))
              (omega (arith, lt))
          ∙ memory-text xs spare (pos + sub + i) lt;
      room = omega (arith, length-write pos rep r, lr, lm, fits);
    }

pub shrunk-Parts :
    (pos sub : ℕ) (rep xs spare : List ℕ)
    → pos + sub ≤ length xs
    → length rep ≤ sub
    → All (λ x. x ≢ 0) xs
    → Parts pos sub rep xs (shrunk pos sub rep (length xs) (memory xs spare))
shrunk-Parts pos sub rep xs spare h shorter nz =
    let m = memory xs spare in
    let k = length xs - (pos + sub) in
    let w = write pos rep m in
    let to = pos + length rep in
    let from = pos + sub in
    let r = shift_left (length xs) to from w in
    let lm : length m ≡ length xs + suc (length spare) = length-append xs (0 ∷ spare) in
    let lw : length w ≡ length m = length-write pos rep m in
    let at_end : from + k ≡ length xs = omega (arith, h) in
    let text : (i : ℕ) → i < k → get_or w (from + i) 0 ≡ get_or xs (from + i) 0 = λ i lt.
      write-outside pos (from + i) rep m (inr (omega (arith, shorter)))
      ∙ memory-text xs spare (from + i) (omega (arith, lt, h)) in
    let ends : get_or w (from + k) 0 ≡ 0 =
      write-outside pos (from + k) rep m (inr (omega (arith, shorter)))
      ∙ ap (λ j. get_or m j 0) at_end
      ∙ memory-nul xs spare in
    let s =
      shift_left-Shifted (length xs) to from k w (omega arith) (omega (arith, shorter))
        (omega (arith, lw, lm, at_end))
        (λ i lt e. All-get_or xs (from + i) nz (omega (arith, lt, h)) (sym (text i lt) ∙ e)) ends in
    let kept : (i : ℕ) → i < to + k → get_or (filled (length xs) r) i 0 ≡ get_or r.1 i 0 =
      λ i lt. fill-outside (length xs - r.0) r.0 i r.1 (omega (arith, lt, s.end)) in
    record {
      before = λ i lt.
          kept i (omega (arith, lt))
          ∙ s.before i (omega (arith, lt))
          ∙ write-outside pos i rep m (inl lt)
          ∙ memory-text xs spare i (omega (arith, lt, h));
      middle = λ i lt.
          kept (pos + i) (omega (arith, lt))
          ∙ s.before (pos + i) (omega (arith, lt))
          ∙ write-inside pos i rep m (omega (arith, lm, h, shorter)) lt;
      behind = λ i lt.
          kept (to + i) (omega (arith, lt, h))
          ∙ s.inside i (omega (arith, lt, h))
          ∙ text i (omega (arith, lt, h));
      room = omega (
        arith,
        length-fill (length xs - r.0) r.0 r.1,
        length-shift_left (length xs) to from w,
        lw,
        lm,
        shorter,
      );
    }
