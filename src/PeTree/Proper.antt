-- ===== src/PeTree/Proper.antt =====
-- Which chains of elements are the chain of a path.
use erishttp.Common.{
  ℕ, ◌+◌, ◌≤◌, ◌<◌, ◌^◌, ◌≡◌, ◌∙◌, true, List, [], ◌∷◌, ◌++◌, append-nil, append_assoc, ℤ, pos,
  negsuc, length, All, arith,
}
use erishttp.PeTree.{Element, integer, string, PeTree, push}
use erishttp.PeTree.Parser.{is_key_char}

abbrev pub AreKeyChars : List ℕ → Type 0
AreKeyChars k = All (λ c. is_key_char c ≡ true) k

abbrev pub IsKey : List ℕ → Type 0
IsKey k = AreKeyChars k × (0 < length k) × (length k ≤ 255)

-- An index is an `int`, and the only negative one stands for `*`.
abbrev pub IsIndex : ℤ → Type 0
IsIndex (pos n) = n < 2 ^ 31
IsIndex (negsuc n) = n ≡ 0

abbrev pub BeginsWithKey : List Element → Type 0
BeginsWithKey (integer n ∷ es) = ⊥
BeginsWithKey _ = Unit

-- No index stands directly behind another.
abbrev pub AreProper : List Element → Type 0
AreProper [] = Unit
AreProper (string k ∷ es) = IsKey k × AreProper es
AreProper (integer n ∷ es) = IsIndex n × BeginsWithKey es × AreProper es

pub record IsCounted (t : PeTree) : Type 0 where
  pub counted : t.count ≡ length t.head
  pub levelled : t.level ≡ length t.head

abbrev pub chain : List Element → PeTree
chain es = record { count = length es; level = length es; head = es }

abbrev pub push_all : PeTree → List Element → PeTree
push_all t [] = t
push_all t (e ∷ es) = push_all (push e t) es

push_all-append :
    (t : PeTree) (es : List Element)
    → push_all t es
      ≡ record { count = t.count + length es; level = t.level + length es; head = t.head ++ es }
push_all-append t [] = rw (append-nil t.head) (ground arith)
push_all-append t (e ∷ es) =
    push_all-append (push e t) es ∙ rw (append_assoc t.head (e ∷ []) es) (ground arith)

pub push_all-chain : (es : List Element) → push_all (chain []) es ≡ chain es
push_all-chain es = push_all-append (chain []) es ∙ ground arith
