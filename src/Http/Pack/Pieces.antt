-- ===== src/Http/Pack/Pieces.antt =====
-- Text that is appended to a buffer piece by piece, until an append fails.
use erishttp.Common.{ℕ, suc, List, [], ◌∷◌, Errno, ok}
use erishttp.Buffer.{Buffer, append, append_c}
use erishttp.Buffer.Block.{Grant}
use erishttp.Http.Header.Parser.{Heap}

pub data Piece : Type 0 where
  bytes : List ℕ → Piece
  char : ℕ → Piece

unfoldable pub put_piece : Grant → Piece → Buffer → Errno × Buffer
put_piece g (bytes xs) b = append g b xs
put_piece g (char c) b = append_c g b c

unfoldable pub put_pieces : Heap → ℕ → List Piece → Errno × Buffer → Errno × Buffer
unfolding put_piece
put_pieces heap i [] r = r
put_pieces heap i (p ∷ ps) (ok, b) = put_pieces heap (suc i) ps (put_piece (heap i) p b)
put_pieces heap i (p ∷ ps) (rc, b) = (rc, b)
