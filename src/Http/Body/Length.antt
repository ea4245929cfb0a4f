-- ===== src/Http/Body/Length.antt =====
-- Lengths that are not a number of bytes.
use erishttp.Common.{
  ℕ, ◌-◌, ◌%◌, ◌^◌, ◌<◌, ◌≡◌, refl, false, Option, some, List, ◌∷◌, arith, leb, Errno, client_4xx,
}
use erishttp.EString.Decimal.{atol, value, AreDecimal, atol_loop-value}
use erishttp.Http.Types.{Http}
use erishttp.Http.Fail.{refuse}
use erishttp.Http.Body.{check_length}

-- A negative Content-Length, of at least -(2^63 - 1), is refused as too large, with status 413, and
-- not as a bad request, as long as the body limit is below 2^63.
pub check_length-negative :
    (cs : List ℕ) (ctx : Http) (rest : ℕ → Option (Errno × Http))
    → AreDecimal cs
    → 0 < value 0 cs
    → value 0 cs < 2 ^ 63
    → ctx.attrs.body_max_size < 2 ^ 63
    → check_length (some (b'-' ∷ cs)) ctx rest ≡ some (client_4xx, refuse ctx 413)
unfolding check_length atol refuse
check_length-negative cs ctx rest all pos small limit =
    let over : leb ((2 ^ 64 - value 0 cs) % 2 ^ 64) ctx.attrs.body_max_size ≡ false =
      ground arith in
    rw (atol_loop-value 0 cs all small, over) refl
