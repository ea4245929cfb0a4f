-- ===== src/EString/Append.antt =====
-- Appending to an eris string.
use erishttp.Common.{
  ℕ, ◌≡◌, refl, Bool, true, false, some, List, [], ◌∷◌, ◌++◌, ◌==◌, if◌then◌else◌, ok, none,
}
use erishttp.EString.{EString, text, append_c, append, cleanup, set_string}

-- the bytes of a text that an eris string keeps
abbrev pub without_nul : List ℕ → List ℕ
without_nul [] = []
without_nul (c ∷ cs) = if c == 0 then without_nul cs else c ∷ without_nul cs

-- on a string that is not NULL the allocator is not asked
pub append_c-some :
    (g : Bool) (xs : List ℕ) (c : ℕ)
    → append_c g (some xs) c ≡ (ok, some (if c == 0 then xs else xs ++ (c ∷ [])))
unfolding append_c
append_c-some true xs c = refl
append_c-some false xs c = refl

-- the new text, if there is memory
pub set_string-text :
    (es : EString) (s : List ℕ)
    → (es' : EString) × (set_string true es s ≡ (ok, es')) × (text es' ≡ s)
unfolding set_string append cleanup
set_string-text none [] = (none, refl, refl)
set_string-text (some xs) [] = (some [], refl, refl)
set_string-text none (x ∷ s) = (some (x ∷ s), refl, refl)
set_string-text (some xs) (x ∷ s) = (some (x ∷ s), refl, refl)
