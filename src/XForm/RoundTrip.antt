-- ===== src/XForm/RoundTrip.antt =====
-- A form that is encoded and then parsed.
use erishttp.Common.{
  ℕ, suc, ◌<◌, ◌≡◌, ◌≢◌, refl, ap, ◌∙◌, true, none, some, List, [], ◌∷◌, ◌++◌, map, All, arith,
  append_assoc, append-nil, length, ==_ne, inr, AreBytes, ok,
}
use erishttp.EString.{append_c, cleanup}
use erishttp.EString.Append.{without_nul}
use erishttp.EString.Split.{value, split_eris}
use erishttp.EString.Split.Cut.{fields, kept}
use erishttp.EString.Split.Fields.{array_of, split_eris-kept}
use erishttp.UrlEncode.{decode_eris, start}
use erishttp.UrlEncode.Spec.{feed}
use erishttp.UrlEncode.Encoder.{encoded}
use erishttp.UrlEncode.Decoder.{decode_loop-decoded}
use erishttp.UrlEncode.RoundTrip.{decoded-encoded, feed-string}
use erishttp.XForm.{
  Elem, XForm, success, Answers, Memory, parse_elem, parse_loop, parse, new_elem, on_parts,
  followed, finished, on_array, split_by,
}
use erishttp.XForm.Form.{
  Pair, encoded_pair, form_text, IsSendable, All-IsNamed, encoded_pair-ne, kept_fields,
  form_text-ne, fields-form_text, kept_pairs, not_nul,
}

-- all that is asked for is granted
pub record AreGranted (a : Answers) : Type 0 where
  pub ranges : (i : ℕ) → a.ranges i ≡ true
  pub room : a.room ≡ true
  pub pieces : (i : ℕ) → a.pieces i ≡ true

pub record IsGranted (mem : Memory) : Type 0 where
  pub query : AreGranted mem.query
  pub parts : (i : ℕ) → AreGranted (mem.parts i)
  pub elem : (i : ℕ) → mem.elem i ≡ true
  pub key : (i : ℕ) → mem.key i ≡ true
  pub value : (i : ℕ) → mem.value i ≡ true
  pub node : (i : ℕ) → mem.node i ≡ true

abbrev pub elem_of : Pair → Elem
elem_of (k, v) = record { key = some k; value = some v }

without_nul_self : (xs : List ℕ) → All (λ x. x ≢ 0) xs → without_nul xs ≡ xs
without_nul_self [] h = refl
without_nul_self (x ∷ xs) (nx, h) = rw (==_ne x 0 nx, without_nul_self xs h) refl

stored_all :
    (x : ℕ) (xs : List ℕ)
    → All (λ x'. x' ≢ 0) (x ∷ xs)
    → feed (append_c true) none (x ∷ xs) ≡ (ok, some (x ∷ xs))
unfolding feed append_c
stored_all x xs h =
    rw (==_ne x 0 h.0) (feed-string true (x ∷ []) xs ∙ rw (without_nul_self xs h.1) refl)

-- the text of a part decoded into a string that is not yet there
decode_new :
    (s : List ℕ)
    → AreBytes s
    → All (λ x. x ≢ 0) s
    → 0 < length s
    → decode_eris true none (some (encoded s)) ≡ (ok, some s)
unfolding decode_eris cleanup
decode_new [] b h lt = absurd (omega arith)
decode_new (x ∷ xs) b h lt =
    decode_loop-decoded (append_c true) start 0 none (encoded (x ∷ xs)) refl
    ∙ rw (decoded-encoded (x ∷ xs) b) (stored_all x xs h)

has_value : (v : List ℕ) → 1 < length (encoded v) → 0 < length v
unfolding encoded
has_value [] h = absurd (omega arith)
has_value (x ∷ v) h = omega arith

new_elem-granted :
    (mem : Memory) (i : ℕ) (p : Pair)
    → IsGranted mem
    → IsSendable p
    → new_elem mem i (some (encoded p.0)) (some (encoded p.1)) ≡ inr (elem_of p)
new_elem-granted mem i (k, v) m s =
    rw
      (
        m.elem i,
        m.key i,
        decode_new k s.name_bytes s.name_text s.named,
        m.value i,
        decode_new v s.value_bytes s.value_text (has_value v s.long),
        m.node i,
      )
      refl

pub split_granted :
    (a : Answers) (spare xs : List ℕ) (c : ℕ)
    → AreGranted a
    → All (λ x. x ≢ 0) xs
    → split_by a spare (some xs) c ≡ value (array_of (kept (fields c xs)))
split_granted a spare xs c g h =
    ap (λ t. split_eris a.ranges t a.pieces spare (some xs) (c ∷ [])) g.room
    ∙ split_eris-kept a.ranges a.pieces spare xs c g.ranges g.pieces h

pub parse_elem-encoded :
    (mem : Memory) (i : ℕ) (p : Pair)
    → IsGranted mem
    → IsSendable p
    → parse_elem mem i (some (encoded_pair p)) ≡ value (inr (elem_of p))
unfolding parse_elem
parse_elem-encoded mem i p m s =
    ap (on_parts mem i) (
      split_granted (mem.parts i) [] (encoded_pair p) b'=' (m.parts i)
        (encoded_pair-ne 0 p not_nul (λ e. omega (arith, e)))
      ∙ ap (λ ws. value (array_of ws)) (kept_fields p s))
    ∙ ap value (new_elem-granted mem i p m s)

pub parse_loop-encoded :
    (mem : Memory) (i : ℕ) (ps : List Pair) (xform : XForm)
    → IsGranted mem
    → All IsSendable ps
    → parse_loop mem i (map some (map encoded_pair ps)) xform
      ≡ value (inr (xform ++ map elem_of ps))
unfolding parse_loop
parse_loop-encoded mem i [] xform m h = rw (append-nil xform) refl
parse_loop-encoded mem i (p ∷ ps) xform m (s, h) =
    ap (followed (parse_loop mem (suc i) (map some (map encoded_pair ps))) xform)
      (parse_elem-encoded mem i p m s)
    ∙ parse_loop-encoded mem (suc i) ps (xform ++ (elem_of p ∷ [])) m h
    ∙ ap (λ t. value (inr t)) (append_assoc xform (elem_of p ∷ []) (map elem_of ps))

-- `eris_xform_parse` of the text of a form, its names and values encoded, if there is memory: it
-- returns 0, and the elements are the pairs of the form in their order; what the context held before
-- and what is behind the text do not matter. A form has at least one pair; its names and values are
-- bytes without NUL, its names are not empty, and its encoded values have two characters or more.
pub parse-form_text :
    (mem : Memory) (spare : List ℕ) (old : XForm) (p : Pair) (ps : List Pair)
    → IsGranted mem
    → All IsSendable (p ∷ ps)
    → parse mem spare old (some (form_text (p ∷ ps))) ≡ value (success, map elem_of (p ∷ ps))
unfolding parse
parse-form_text mem spare old p ps m h =
    ap (on_array mem) (
      split_granted mem.query spare (form_text (p ∷ ps)) b'&' m.query (form_text-ne (p ∷ ps))
      ∙ ap (λ ws. value (array_of ws))
          (ap kept (fields-form_text p ps) ∙ kept_pairs (p ∷ ps) (All-IsNamed (p ∷ ps) h)))
    ∙ ap finished (parse_loop-encoded mem 0 (p ∷ ps) [] m h)
