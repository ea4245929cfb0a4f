-- ===== src/Common/Bytes.antt =====
-- Bytes: checks of every value below a bound by evaluation.
use Prim.Native.Nat.{ℕ, zero, suc, ◌<◌}
use mathlib.Core.Path.{◌≡◌}
use mathlib.Core.Bool.{Bool, true, ◌&&◌}
use mathlib.Core.List.{List, [], ◌∷◌}
use native.Mathlib.Omega.{arith}
use Prim.Native.Char.{code}
use Prim.Native.String.{String}

unfoldable pub every_below : ℕ → (ℕ → Bool) → Bool
every_below zero test = true
every_below (suc bound) test = every_below bound test && test bound

-- A number below the bound passes a test that all numbers below the bound pass.
pub every_below-at :
    (bound : ℕ) (test : ℕ → Bool) {c : ℕ}
    → c < bound
    → every_below bound test ≡ true
    → test c ≡ true
unfolding every_below
every_below-at zero test lt passed = absurd (omega arith)
every_below-at (suc bound) test {c} lt passed =
    let before : c < bound → every_below bound test ≡ true → test c ≡ true =
      every_below-at bound test in
    ground (arith, before)

-- Every item has the property.
abbrev pub All {ℓ κ} : {A : Type ℓ} → (A → Type κ) → List A → Type κ
All P [] = Unit
All P (x ∷ xs) = P x × All P xs

-- each number is the value of a byte
abbrev pub AreBytes : List ℕ → Type 0
AreBytes xs = All (λ x. x < 256) xs

-- The bytes of an ASCII text.
abbrev pub codes : String → List ℕ
codes String.[] = []
codes (String.◌∷◌ c s) = code c ∷ codes s
