-- ===== src/XForm/Form.antt =====
-- The text of a form, and how it falls apart.
use erishttp.Common.{
  ℕ, ◌<◌, ◌≡◌, ◌≢◌, refl, ap, subst, ◌∙◌, true, List, [], ◌∷◌, ◌++◌, map, All, arith, length, ==_ne,
  ==_self, length-append, ltb, AreBytes,
}
use erishttp.EString.Split.Cut.{fields, kept}
use erishttp.UrlEncode.{encode_tmp}
use erishttp.UrlEncode.Encoder.{encoded, encoded_char, encoded-IsSafe, IsSafe}

-- a name and a value, and the text of a form of them
abbrev pub Pair : Type 0
Pair = List ℕ × List ℕ

abbrev pub encoded_pair : Pair → List ℕ
encoded_pair (k, v) = encoded k ++ (b'=' ∷ encoded v)

unfoldable pub form_text : List Pair → List ℕ
form_text [] = []
form_text (p ∷ []) = encoded_pair p
form_text (p ∷ q ∷ ps) = encoded_pair p ++ (b'&' ∷ form_text (q ∷ ps))

-- Both are bytes without NUL, the name is not empty, and the encoded value has two characters or
-- more.
pub record IsSendable (p : Pair) : Type 0 where
  pub name_bytes : AreBytes p.0
  pub value_bytes : AreBytes p.1
  pub name_text : All (λ x. x ≢ 0) p.0
  pub value_text : All (λ x. x ≢ 0) p.1
  pub named : 0 < length p.0
  pub long : 1 < length (encoded p.1)

pub fields-whole : (c : ℕ) (w : List ℕ) → All (λ x. x ≢ c) w → fields c w ≡ w ∷ []
fields-whole c [] h = refl
fields-whole c (x ∷ w) (nx, h) = rw (==_ne x c nx, fields-whole c w h) refl

pub fields-append :
    (c : ℕ) (w m : List ℕ) → All (λ x. x ≢ c) w → fields c (w ++ (c ∷ m)) ≡ w ∷ fields c m
fields-append c [] m h = rw (==_self c) refl
fields-append c (x ∷ w) m (nx, h) = rw (==_ne x c nx, fields-append c w m h) refl

All-append : (P : ℕ → Type 0) (xs ys : List ℕ) → All P xs → All P ys → All P (xs ++ ys)
All-append P [] ys h k = k
All-append P (x ∷ xs) ys h k = (h.0, All-append P xs ys h.1 k)

safe-ne : (c x : ℕ) → IsSafe x → (IsSafe c → ⊥) → x ≢ c
safe-ne c x h bad = λ e. bad (subst IsSafe e h)

All-ne : (c : ℕ) (xs : List ℕ) → (IsSafe c → ⊥) → All IsSafe xs → All (λ x. x ≢ c) xs
All-ne c [] bad h = tt
All-ne c (x ∷ xs) bad h = (safe-ne c x h.0 bad, All-ne c xs bad h.1)

pub encoded-ne : (c : ℕ) (s : List ℕ) → (IsSafe c → ⊥) → All (λ x. x ≢ c) (encoded s)
encoded-ne c s bad = All-ne c (encoded s) bad (encoded-IsSafe s)

length-encoded_char : (c : ℕ) → 0 < length (encoded_char c)
unfolding encode_tmp
length-encoded_char c = ground arith

length-encoded : (c : ℕ) (cs : List ℕ) → 0 < length (encoded (c ∷ cs))
unfolding encoded
length-encoded c cs =
    omega (arith, length-append (encoded_char c) (encoded cs), length-encoded_char c)

pub named-encoded : (k : List ℕ) → 0 < length k → 0 < length (encoded k)
named-encoded [] h = absurd (omega arith)
named-encoded (x ∷ k) h = length-encoded x k

pub kept_pair : (a b : List ℕ) → 0 < length a → 1 < length b → kept (a ∷ b ∷ []) ≡ a ∷ b ∷ []
kept_pair a b ha hb =
    let p : ltb 0 (length a) ≡ true = ground (arith, ha) in
    let q : ltb 1 (length b) ≡ true = ground (arith, hb) in rw (p, q) refl

pub not_equals : IsSafe b'=' → ⊥
not_equals h = ground (arith, h)

pub not_amp : IsSafe b'&' → ⊥
not_amp h = ground (arith, h)

pub not_nul : IsSafe 0 → ⊥
not_nul h = ground (arith, h)

pub encoded_pair-ne :
    (c : ℕ) (p : Pair) → (IsSafe c → ⊥) → b'=' ≢ c → All (λ x. x ≢ c) (encoded_pair p)
encoded_pair-ne c (k, v) bad ne =
    All-append (λ x. x ≢ c) (encoded k) (b'=' ∷ encoded v) (encoded-ne c k bad)
      (ne, encoded-ne c v bad)

pub kept_fields :
    (p : Pair) → IsSendable p → kept (fields b'=' (encoded_pair p)) ≡ encoded p.0 ∷ encoded p.1 ∷ []
kept_fields (k, v) s =
    ap kept (
      fields-append b'=' (encoded k) (encoded v) (encoded-ne b'=' k not_equals)
      ∙ ap (λ ws. encoded k ∷ ws) (fields-whole b'=' (encoded v) (encoded-ne b'=' v not_equals)))
    ∙ kept_pair (encoded k) (encoded v) (named-encoded k s.named) s.long

pub form_text-ne : (ps : List Pair) → All (λ x. x ≢ 0) (form_text ps)
unfolding form_text
form_text-ne [] = tt
form_text-ne (p ∷ []) = encoded_pair-ne 0 p not_nul (λ e. omega (arith, e))
form_text-ne (p ∷ q ∷ ps) =
    All-append (λ x. x ≢ 0) (encoded_pair p) (b'&' ∷ form_text (q ∷ ps))
      (encoded_pair-ne 0 p not_nul (λ e. omega (arith, e)))
      ((λ e. omega (arith, e)), form_text-ne (q ∷ ps))

pub fields-form_text :
    (p : Pair) (ps : List Pair) → fields b'&' (form_text (p ∷ ps)) ≡ map encoded_pair (p ∷ ps)
unfolding form_text
fields-form_text p [] =
    fields-whole b'&' (encoded_pair p) (encoded_pair-ne b'&' p not_amp (λ e. omega (arith, e)))
fields-form_text p (q ∷ ps) =
    fields-append b'&' (encoded_pair p) (form_text (q ∷ ps))
      (encoded_pair-ne b'&' p not_amp (λ e. omega (arith, e)))
    ∙ ap (λ ws. encoded_pair p ∷ ws) (fields-form_text q ps)

abbrev pub IsNamed : Pair → Type 0
IsNamed p = 0 < length p.0

length-encoded_pair : (p : Pair) → IsNamed p → 1 < length (encoded_pair p)
length-encoded_pair (k, v) s =
    omega (arith, length-append (encoded k) (b'=' ∷ encoded v), named-encoded k s)

pub kept_pairs :
    (ps : List Pair) → All IsNamed ps → kept (map encoded_pair ps) ≡ map encoded_pair ps
kept_pairs [] h = refl
kept_pairs (p ∷ []) (s, h) =
    let t : ltb 1 (length (encoded_pair p)) ≡ true = ground (arith, length-encoded_pair p s) in
    rw t refl
kept_pairs (p ∷ q ∷ ps) (s, h) =
    let lt : 0 < length (encoded_pair p) = omega (arith, length-encoded_pair p s) in
    let t : ltb 0 (length (encoded_pair p)) ≡ true = ground (arith, lt) in
    rw t (ap (λ ws. encoded_pair p ∷ ws) (kept_pairs (q ∷ ps) h))

pub All-IsNamed : (ps : List Pair) → All IsSendable ps → All IsNamed ps
All-IsNamed [] h = tt
All-IsNamed (p ∷ ps) (s, h) = (s.named, All-IsNamed ps h)
