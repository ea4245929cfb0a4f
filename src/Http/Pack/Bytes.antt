-- ===== src/Http/Pack/Bytes.antt =====
-- The bytes of the pieces, when there is memory.
use erishttp.Common.{
  ℕ, suc, ◌+◌, ◌≤◌, ◌<◌, ◌^◌, ◌≡◌, ◌∙◌, refl, sym, ap, true, none, some, List, [], ◌∷◌, ◌++◌,
  append-nil, append_assoc, arith, length, Errno, ok, inl, inr,
}
use erishttp.Buffer.{Buffer, contents, append, append_c}
use erishttp.Buffer.Inv.{IsValid}
use erishttp.Buffer.Block.{Grant}
use erishttp.Buffer.Append.{Outcome, append-Outcome, append_c-Outcome, alloc-append_c}
use erishttp.Http.Header.Parser.{Heap, grants}
use erishttp.Http.Pack.Pieces.{Piece, bytes, char, put_piece, put_pieces}

abbrev pub piece_bytes : Piece → List ℕ
piece_bytes (bytes xs) = xs
piece_bytes (char c) = c ∷ []

abbrev pub all_bytes : List Piece → List ℕ
all_bytes [] = []
all_bytes (p ∷ ps) = piece_bytes p ++ all_bytes ps

-- what the pieces may add to an allocation
abbrev pub cost : List Piece → ℕ
cost [] = 0
cost (p ∷ ps) = length (piece_bytes p) + 4 + cost ps

alloc-append :
    (g : Grant) (b : Buffer) (xs : List ℕ)
    → b.alloc + length xs + 4 < 2 ^ 64
    → (append g b xs).1.alloc ≤ b.alloc + length xs + 4
unfolding append
alloc-append g b [] h = omega arith
alloc-append none b (x ∷ xs) h = ground arith
alloc-append (some junk) b (x ∷ xs) h = ground arith

abbrev Put : Buffer → List ℕ → Errno × Buffer → Type 0
Put b xs r =
    (r.0 ≡ ok)
    × IsValid r.1
    × (contents r.1 ≡ contents b ++ xs)
    × (r.1.alloc ≤ b.alloc + length xs + 4)

Outcome-Put :
    (g : Grant) (b : Buffer) (xs : List ℕ) (r : Errno × Buffer)
    → grants g ≡ true
    → Outcome g b xs r
    → r.1.alloc ≤ b.alloc + length xs + 4
    → Put b xs r
Outcome-Put g b xs (rc, b') h (inl (fine, a)) le = (fine, a.valid, a.bytes, le)
Outcome-Put g b xs (rc, b') h (inr (bad, same, none_left, full)) le = absurd (refused g h none_left)
  where
    refused : (g' : Grant) → grants g' ≡ true → g' ≡ none → ⊥
    refused none t e = cc
    refused (some junk) t e = cc

put_piece-Put :
    (g : Grant) (p : Piece) (b : Buffer)
    → grants g ≡ true
    → IsValid b
    → b.alloc + length (piece_bytes p) + 4 < 2 ^ 64
    → Put b (piece_bytes p) (put_piece g p b)
unfolding put_piece
put_piece-Put g (bytes []) b h v room =
    unfold append in (refl, v, sym (append-nil (contents b)), omega arith)
put_piece-Put g (bytes (x ∷ xs)) b h v room =
    Outcome-Put g b (x ∷ xs) (append g b (x ∷ xs)) h (append-Outcome g x xs v room)
      (alloc-append g b (x ∷ xs) room)
put_piece-Put g (char c) b h v room =
    Outcome-Put g b (c ∷ []) (append_c g b c) h (append_c-Outcome g c v (omega arith))
      (omega (arith, alloc-append_c g b c (omega arith)))

-- With memory for them the pieces are all appended.
pub put_pieces-bytes :
    (heap : Heap) (i : ℕ) (ps : List Piece) (b : Buffer)
    → ((n : ℕ) → grants (heap n) ≡ true)
    → IsValid b
    → b.alloc + cost ps < 2 ^ 64
    → (b' : Buffer) × (put_pieces heap i ps (ok, b) ≡ (ok, b'))
      × IsValid b'
      × (contents b' ≡ contents b ++ all_bytes ps)
      × (b'.alloc ≤ b.alloc + cost ps)
unfolding put_pieces
put_pieces-bytes heap i [] b granted v room =
    (b, refl, v, sym (append-nil (contents b)), omega arith)
put_pieces-bytes heap i (p ∷ ps) b granted v room =
    let (fine, v1, more, le) = put_piece-Put (heap i) p b (granted i) v (omega arith) in
    let b1 = (put_piece (heap i) p b).1 in
    let (b', run, v', bytes', le') =
      put_pieces-bytes heap (suc i) ps b1 granted v1 (omega (arith, le)) in
    let split : put_piece (heap i) p b ≡ (ok, b1) = ap (λ (rc : Errno). (rc, b1)) fine in
    (
      b',
      ap (λ r. put_pieces heap (suc i) ps r) split ∙ run,
      v',
      bytes' ∙ rw more (append_assoc (contents b) (piece_bytes p) (all_bytes ps)),
      omega (arith, le, le'),
    )
